-- ===== src/Pool/Calls.antt =====
-- Histories of calls on internal/pool/manager.go: the counters against the pool.
use pvm.Prelude.{
  ℕ, String, ◌≡◌, refl, Bool, false, Option, none, some, List, [], ◌∷◌, All, ◌==◌, text_comparable,
  inl, inr, Bool-cases, Result, ok, err, leb, length,
}
use mathlib.Core.List.{append-nil}
use pvm.Prelude.Dict.{get}
use pvm.Fsjson
use pvm.Pool.Types.{Sandbox, Template, Quota, Manager, Env, persist_locked, persist_locked-eq}
use pvm.Pool.Claim.{begin_claim}
use pvm.Pool.Commit.{commit_claim}
use pvm.Pool.Mutate.{confirm_quota, set_quota, confirm_warmed, keep_warm, release}
use pvm.Pool.Pause.{suspend, resume, retry_cleanups}
use pvm.Pool.Signed.{IsFit}
use pvm.Pool.Books.{IsBalanced, Books-idle}
use pvm.Pool.Balance.{
  persist-IsBalanced, destroy-IsBalanced, begin_claim-IsBalanced, commit_claim-IsBalanced,
}
use pvm.Pool.Returns.{release-IsBalanced}
use pvm.Pool.Pausing.{suspend-IsBalanced, resume-IsBalanced}

confirm_quota-IsBalanced :
    (r : Result Fsjson.Error (Unit {0})) (m : Manager) (t : String) (prev : Option Quota)
    → IsBalanced m
    → IsBalanced (confirm_quota r m t prev).0
confirm_quota-IsBalanced (ok _) m t prev b = b
confirm_quota-IsBalanced (err x) m t prev b = b

set_quota-IsBalanced :
    (e : Env) (m : Manager) (t : String) (q : Quota)
    → IsBalanced m
    → IsBalanced (set_quota e m t q).0
unfolding set_quota
set_quota-IsBalanced e m t q b =
    confirm_quota-IsBalanced _ _ t (get m.quotas t) (persist-IsBalanced e _ b)

confirm_warmed-IsBalanced :
    (r : Result Fsjson.Error (Unit {0})) (d : Option Bool) (m : Manager) (old : List Sandbox)
    (id : String)
    → IsBalanced (record m { pool = old })
    → IsBalanced m
    → IsBalanced (confirm_warmed r d m old id).0
confirm_warmed-IsBalanced (ok _) d m old id was b = b
confirm_warmed-IsBalanced (err x) d m old id was b = destroy-IsBalanced d _ id _ was

persist-old :
    (e : Env) (m : Manager) (old : List Sandbox)
    → IsBalanced (record m { pool = old })
    → IsBalanced (record (persist_locked e.disk m).0 { pool = old })
persist-old e m old b = let (file, q) = persist_locked-eq e.disk m in rw q b

keep_warm-IsBalanced :
    (e : Env) (d : Option Bool) (m : Manager) (tmpl : Template) (id : String)
    → IsBalanced m
    → IsBalanced (keep_warm e d m tmpl id).0
unfolding keep_warm
keep_warm-IsBalanced e d m tmpl id b = elim (Bool-cases (leb m.capacity (length m.pool))) [
  | inl full ↦ rw (full, keep_warm) (destroy-IsBalanced d m id _ b)
  | inr room ↦
      rw (room, keep_warm)
        (confirm_warmed-IsBalanced _ d _ m.pool id (persist-old e _ m.pool b) (
          persist-IsBalanced e _
            (Books-idle m.pool [] _ refl (refl, refl) (rw (append-nil m.pool) b))))
]

retry_cleanups-IsBalanced :
    (o : Option (String → Bool)) (m : Manager) → IsBalanced m → IsBalanced (retry_cleanups o m)
unfolding retry_cleanups
retry_cleanups-IsBalanced none m b = b
retry_cleanups-IsBalanced (some ok?) m b = elim (Bool-cases m.cleanup_sweeping) [
  | inl busy ↦ rw (busy, retry_cleanups) b
  | inr idle ↦ rw (idle, retry_cleanups) b
]

-- One critical section of the manager with what it is called with. A claim that has to build its
-- sandbox is two of them.
pub data Call : Type 0 where
  begin : Env → Bool → String → Template → String → Call
  commit : Env → Option Bool → String → String → Template → String → ℕ → Call
  warm_up : Env → Option Bool → Template → String → Call
  give_back : Env → Option Bool → String → Bool → Call
  pause : Env → String → Call
  wake : Env → String → Call
  quota : Env → String → Quota → Call
  sweep : Option (String → Bool) → Call

unfoldable pub step : Manager → Call → Manager
step m (begin e factory tenant tmpl task) = (begin_claim e factory m tenant tmpl task).0
step m (commit e d id tenant tmpl task want) = (commit_claim e d m id tenant tmpl task want).0
step m (warm_up e d tmpl id) = (keep_warm e d m tmpl id).0
step m (give_back e d id recycle?) = (release e d m id recycle?).0
step m (pause e id) = (suspend e m id).0
step m (wake e id) = (resume e m id).0
step m (quota e t q) = (set_quota e m t q).0
step m (sweep o) = retry_cleanups o m

unfoldable pub run : Manager → List Call → Manager
run m [] = m
run m (c ∷ cs) = run (step m c) cs

-- The tenant of a claim has a name.
abbrev pub IsNamed : Call → Type 0
IsNamed (begin e factory tenant tmpl task) = (tenant == "") ≡ false
IsNamed (commit e d id tenant tmpl task want) = (tenant == "") ≡ false
IsNamed _ = Unit

-- Before every call the cpu of each tenant's sandboxes are numbers of which none is negative, and
-- neither is their sum as an int.
abbrev pub IsFitRun : Manager → List Call → Type 0
IsFitRun m [] = Unit
IsFitRun m (c ∷ cs) = IsFit m.pool × IsFitRun (step m c) cs

step-IsBalanced :
    (m : Manager) (c : Call) → IsNamed c → IsFit m.pool → IsBalanced m → IsBalanced (step m c)
unfolding step
step-IsBalanced m (begin e factory tenant tmpl task) n fit b =
    begin_claim-IsBalanced e factory m tenant tmpl task n fit b
step-IsBalanced m (commit e d id tenant tmpl task want) n fit b =
    commit_claim-IsBalanced e d m id tenant tmpl task want n fit b
step-IsBalanced m (warm_up e d tmpl id) n fit b = keep_warm-IsBalanced e d m tmpl id b
step-IsBalanced m (give_back e d id recycle?) n fit b = release-IsBalanced e d m id recycle? fit b
step-IsBalanced m (pause e id) n fit b = suspend-IsBalanced e m id b
step-IsBalanced m (wake e id) n fit b = resume-IsBalanced e m id b
step-IsBalanced m (quota e t q) n fit b = set_quota-IsBalanced e m t q b
step-IsBalanced m (sweep o) n fit b = retry_cleanups-IsBalanced o m b

-- Over any history of the manager's critical sections (claims, with those of other callers between
-- their two halves, warm-ups, releases, suspends, resumes, quota changes and cleanup sweeps), whatever
-- the disk, `Factory` and `Destroyer` do in each: when the claims name a tenant, the counters agree
-- with the pool at the start, and before every call no tenant holds a negative cpu or more than
-- MaxInt64 of it altogether, then for every tenant the counters of running sandboxes, cpu (modulo
-- 2 ^ 64) and memory stay the sums over the sandboxes in the pool that the tenant holds. A rolled-back
-- call leaks no quota and gives none away.
pub run-IsBalanced :
    (m : Manager) (calls : List Call)
    → All IsNamed calls
    → IsFitRun m calls
    → IsBalanced m
    → IsBalanced (run m calls)
unfolding run
run-IsBalanced m [] n fit b = b
run-IsBalanced m (c ∷ cs) n fit b =
    run-IsBalanced (step m c) cs n.1 fit.1 (step-IsBalanced m c n.0 fit.0 b)
