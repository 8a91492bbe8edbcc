-- ===== src/Pool/Balance.antt =====
-- The claims of internal/pool/manager.go and its counters against the pool, also where a write of the
-- store fails and the claim is rolled back.
use mathlib.Core.List.{append-nil}
use pvm.Prelude.{
  ℕ, String, ◌≡◌, refl, Bool, true, false, ◌&&◌, Option, none, some, List, [], ◌∷◌, ◌++◌, arith,
  ◌==◌, text_comparable, inl, inr, Bool-cases, Option-cases, Result, ok, err, ltb, leb, length,
}
use pvm.Prelude.Dict.{get}
use pvm.Fsjson
use pvm.Pool.Memory.{MemoryError}
use pvm.Pool.Types.{
  Sandbox, Template, Manager, Env, persist_locked, persist_locked-eq, split_first, Note, quota_of,
}
use pvm.Pool.Counters.{account_claim, rollback_claim, prune_hourly}
use pvm.Pool.Claim.{
  is_ready, claim_sandbox, unclaim_sandbox, confirm_warm, claim_warm, seek_warm, check_quota,
  begin_claim, adopt_quota, destroy, refusal,
}
use pvm.Pool.Commit.{
  confirm_created, add_created, new_sandbox, commit_pruned, commit_claim, second_refusal,
}
use pvm.Pool.Tally.{held, split_first-eq}
use pvm.Pool.Signed.{IsFit, IsFit-remove}
use pvm.Pool.Books.{IsBalanced, Books-idle, Books-skip, Books-raise, Books-lower}

-- Only the file is new after a write.
pub persist-IsBalanced :
    (e : Env) (m : Manager) → IsBalanced m → IsBalanced (persist_locked e.disk m).0
persist-IsBalanced e m b = let (file, q) = persist_locked-eq e.disk m in rw q b

pub pool-persist : (e : Env) (m : Manager) → (persist_locked e.disk m).0.pool ≡ m.pool
pool-persist e m = let (file, q) = persist_locked-eq e.disk m in rw q refl

confirm_warm-IsBalanced :
    (r : Result Fsjson.Error (Unit {0})) (e : Env) (m : Manager) (before : List Sandbox)
    (s : Sandbox) (behind : List Sandbox) (tenant : String) (tmpl : Template) (want : ℕ)
    → (tenant == "") ≡ false
    → held s.state ≡ true
    → s.tenant ≡ tenant
    → s.cpu ≡ tmpl.cpu
    → s.mem_mb ≡ want
    → m.pool ≡ before ++ s ∷ behind
    → IsFit (before ++ behind)
    → IsBalanced m
    → IsBalanced (confirm_warm r e m before s behind tenant tmpl want).0
unfolding rollback_claim unclaim_sandbox
confirm_warm-IsBalanced (ok _) e m before s behind tenant tmpl want n h o c w q fit b = b
confirm_warm-IsBalanced (err x) e m before s behind tenant tmpl want n h o c w q fit b = rw n (
    Books-idle before behind (unclaim_sandbox s) refl (refl, refl)
      (rw (← c, ← w) (Books-lower before behind s tenant h o fit (rw q at b))))

claim_warm-IsBalanced :
    (e : Env) (m : Manager) (before : List Sandbox) (s : Sandbox) (behind : List Sandbox)
    (tenant : String) (tmpl : Template) (task : String) (want : ℕ)
    → (tenant == "") ≡ false
    → m.pool ≡ before ++ s ∷ behind
    → is_ready s.state ≡ true
    → IsFit m.pool
    → IsBalanced m
    → IsBalanced (claim_warm e m before s behind tenant tmpl task want).0
unfolding claim_warm account_claim claim_sandbox
claim_warm-IsBalanced e m before s behind tenant tmpl task want n q r fit b =
    confirm_warm-IsBalanced _ e _ before (claim_sandbox s tenant tmpl task want e.now) behind tenant
      tmpl want n refl refl refl refl (pool-persist e _)
      (IsFit-remove before behind s (rw q at fit))
      (persist-IsBalanced e _ (
        Books-raise before behind (claim_sandbox s tenant tmpl task want e.now) tenant refl refl
          (rw n, refl) (Books-skip before behind s (ground arith) (rw q at b))))

pub destroy-IsBalanced :
    (d : Option Bool) (m : Manager) (id : String) (why : Note)
    → IsBalanced m
    → IsBalanced (destroy d m id why)
unfolding destroy
destroy-IsBalanced none m id why b = b
destroy-IsBalanced (some true) m id why b = b
destroy-IsBalanced (some false) m id why b = b

confirm_created-IsBalanced :
    (r : Result Fsjson.Error (Unit {0})) (e : Env) (d : Option Bool) (m : Manager)
    (old : List Sandbox) (s : Sandbox) (id tenant : String) (tmpl : Template) (want : ℕ)
    → (tenant == "") ≡ false
    → held s.state ≡ true
    → s.tenant ≡ tenant
    → s.cpu ≡ tmpl.cpu
    → s.mem_mb ≡ want
    → m.pool ≡ old ++ s ∷ []
    → IsFit old
    → IsBalanced m
    → IsBalanced (confirm_created r e d m old id tenant tmpl want).0
unfolding rollback_claim
confirm_created-IsBalanced (ok _) e d m old s id tenant tmpl want n h o c w q fit b = b
confirm_created-IsBalanced (err x) e d m old s id tenant tmpl want n h o c w q fit b =
    destroy-IsBalanced d _ id _ (
      rw n (
        rw (← append-nil old, ← c, ← w)
          (Books-lower old [] s tenant h o (rw (append-nil old) fit) (rw q at b))))

add_created-IsBalanced :
    (e : Env) (d : Option Bool) (m : Manager) (id tenant : String) (tmpl : Template) (task : String)
    (want : ℕ)
    → (tenant == "") ≡ false
    → IsFit m.pool
    → IsBalanced m
    → IsBalanced (add_created e d m id tenant tmpl task want).0
unfolding add_created account_claim new_sandbox
add_created-IsBalanced e d m id tenant tmpl task want n fit b =
    let s = new_sandbox id tenant tmpl task want e.now in
    confirm_created-IsBalanced _ e d _ m.pool s id tenant tmpl want n refl refl refl refl
      (pool-persist e _) fit
      (persist-IsBalanced e _
        (Books-raise m.pool [] s tenant refl refl (rw n, refl) (rw (append-nil m.pool) b)))

commit_pruned-IsBalanced :
    (e : Env) (d : Option Bool) (m : Manager) (id tenant : String) (tmpl : Template) (task : String)
    (want : ℕ)
    → (tenant == "") ≡ false
    → IsFit m.pool
    → IsBalanced m
    → IsBalanced (commit_pruned e d m id tenant tmpl task want).0
unfolding commit_pruned
commit_pruned-IsBalanced e d m id tenant tmpl task want n fit b =
    elim (Option-cases (second_refusal m (quota_of m tenant) tenant tmpl want)) [
      | inl open? ↦
          rw (open?, commit_pruned) (add_created-IsBalanced e d m id tenant tmpl task want n fit b)
      | inr (note, no?) ↦ rw (no?, commit_pruned) (destroy-IsBalanced d m id note b)
    ]

-- A claim that waited for `Factory` keeps the books, whatever it finds when it comes back.
pub commit_claim-IsBalanced :
    (e : Env) (d : Option Bool) (m : Manager) (id tenant : String) (tmpl : Template) (task : String)
    (want : ℕ)
    → (tenant == "") ≡ false
    → IsFit m.pool
    → IsBalanced m
    → IsBalanced (commit_claim e d m id tenant tmpl task want).0
unfolding commit_claim prune_hourly
commit_claim-IsBalanced e d m id tenant tmpl task want n fit b =
    elim (Bool-cases (leb m.capacity (length m.pool))) [
      | inl full ↦ rw (full, commit_claim) (destroy-IsBalanced d m id _ b)
      | inr room ↦
          rw (room, commit_claim) (commit_pruned-IsBalanced e d _ id tenant tmpl task want n fit b)
    ]

seek_warm-IsBalanced :
    (e : Env) (f : Bool) (m : Manager) (tenant : String) (tmpl : Template) (task : String)
    (want : ℕ)
    → (tenant == "") ≡ false
    → IsFit m.pool
    → IsBalanced m
    → IsBalanced (seek_warm e f m tenant tmpl task want).0
unfolding seek_warm
seek_warm-IsBalanced e f m tenant tmpl task want n fit b =
    let wanted = λ (s : Sandbox). is_ready s.state && s.template == tmpl.name in
    elim (Option-cases (split_first wanted m.pool)) [
      | inl none? ↦
          rw (none?, seek_warm)
            (elim (Bool-cases (ltb (length m.pool) m.capacity && f)) [
              | inl y ↦ rw (y, seek_warm) b
              | inr z ↦ rw (z, seek_warm) b
            ])
      | inr ((before, s, behind), found) ↦
          let (q, hit) = split_first-eq wanted m.pool before behind s found in
          rw (found, seek_warm)
            (claim_warm-IsBalanced e m before s behind tenant tmpl task want n q (ground arith) fit
              b)
    ]

check_quota-IsBalanced :
    (e : Env) (f : Bool) (m : Manager) (tenant : String) (tmpl : Template) (task : String)
    (r : Result MemoryError ℕ)
    → (tenant == "") ≡ false
    → IsFit m.pool
    → IsBalanced m
    → IsBalanced (check_quota e f m tenant tmpl task r).0
unfolding check_quota
check_quota-IsBalanced e f m tenant tmpl task (err x) n fit b = b
check_quota-IsBalanced e f m tenant tmpl task (ok want) n fit b =
    elim (Option-cases (refusal m (quota_of m tenant) tenant tmpl want)) [
      | inl open? ↦
          rw (open?, check_quota) (seek_warm-IsBalanced e f m tenant tmpl task want n fit b)
      | inr (note, no?) ↦ rw (no?, check_quota) b
    ]

adopt_quota-IsBalanced : (m : Manager) (t : String) → IsBalanced m → IsBalanced (adopt_quota m t)
unfolding adopt_quota
adopt_quota-IsBalanced m t b = elim (Option-cases (get m.quotas t)) [
  | inl none? ↦ rw (none?, adopt_quota) b
  | inr (q, some?) ↦ rw (some?, adopt_quota) b
]

pool-adopt_quota : (m : Manager) (t : String) → (adopt_quota m t).pool ≡ m.pool
unfolding adopt_quota
pool-adopt_quota m t = elim (Option-cases (get m.quotas t)) [
  | inl none? ↦ rw (none?, adopt_quota) refl
  | inr (q, some?) ↦ rw (some?, adopt_quota) refl
]

-- The part of a claim before `Factory` keeps the books on every branch.
pub begin_claim-IsBalanced :
    (e : Env) (f : Bool) (m : Manager) (tenant : String) (tmpl : Template) (task : String)
    → (tenant == "") ≡ false
    → IsFit m.pool
    → IsBalanced m
    → IsBalanced (begin_claim e f m tenant tmpl task).0
unfolding begin_claim prune_hourly
begin_claim-IsBalanced e f m tenant tmpl task n fit b =
    check_quota-IsBalanced e f _ tenant tmpl task _ n (rw (pool-adopt_quota m tenant) fit)
      (adopt_quota-IsBalanced m tenant b)
