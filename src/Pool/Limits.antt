-- ===== src/Pool/Limits.antt =====
-- Lemmas on the quota checks of `claim` in internal/pool/manager.go, on the counters as they are after
-- the claim is accounted.
use pvm.Prelude.{
  ◌+◌, ◌%◌, ◌^◌, ◌&&◌, ℕ, ◌≤◌, String, ◌≡◌, refl, Bool, true, false, none, List, [], ◌∷◌, ◌++◌,
  ◌==◌, arith, text_comparable, inl, inr, Bool-cases, Option-cases, Result, ok, err, ltb, length,
  length-append, beq_refl,
}
use pvm.Prelude.Dict.{Dict, get, put, get-put}
use pvm.Fsjson
use pvm.Pool.Memory.{max_int64, mem_exceeded_exact, MemoryError}
use pvm.Pool.Types.{
  Sandbox, Template, Quota, Manager, Env, Error, persist_locked, persist_locked-eq, split_first,
  count, window, quota_of,
}
use pvm.Pool.Counters.{raise, raise_int, count-raise, count-raise_int, exceeds_int, account_claim}
use pvm.Pool.Claim.{
  Begun, finished, refusal, confirm_warm, claim_warm, seek_warm, check_quota, adopt_quota,
  claim_sandbox, is_ready,
}

-- a ≤ b of two Go ints, as words: 2 ^ 63 and above stand for the negative numbers.
abbrev pub IsAtMost : ℕ → ℕ → Type 0
IsAtMost a b = (a + 2 ^ 63) % 2 ^ 64 ≤ (b + 2 ^ 63) % 2 ^ 64

-- What a tenant has, against its limits.
abbrev pub IsWithin : Quota → Manager → String → Type 0
IsWithin q m t =
    (count m.running t ≤ q.max_concurrent)
    × (IsAtMost (count m.cpu t) q.max_cpu)
    × (count m.mem_mb t ≤ q.max_memory_mb)
    × (length (window m.hourly t) ≤ q.max_tasks_per_hour)

-- The memory of the tenant, its limit and what is asked for are 64-bit numbers.
abbrev pub IsInt64 : Manager → Quota → String → ℕ → Type 0
IsInt64 m q t want =
    (q.max_memory_mb ≤ max_int64) × (count m.mem_mb t ≤ max_int64) × (want ≤ max_int64)

pub window-put : (d : Dict String (List ℕ)) (t : String) (ts : List ℕ) → window (put d t ts) t ≡ ts
unfolding window
window-put d t ts = rw (get-put, beq_refl) refl

-- A claim that no limit refuses is within them once it is accounted.
pub account_claim-IsWithin :
    (m : Manager) (q : Quota) (t : String) (tmpl : Template) (want now : ℕ)
    → IsInt64 m q t want
    → refusal m q t tmpl want ≡ none
    → IsWithin q (account_claim m t tmpl.cpu want now) t
unfolding exceeds_int refusal account_claim
account_claim-IsWithin m q t tmpl want now (a, b, c) h =
    let running : count (raise m.running t 1) t ≤ q.max_concurrent =
      ground (arith, h, count-raise m.running t t 1, beq_refl t) in
    let cpu : IsAtMost (count (raise_int m.cpu t tmpl.cpu) t) q.max_cpu =
      ground (arith, h, count-raise_int m.cpu t t tmpl.cpu, beq_refl t) in
    let mem : count (raise m.mem_mb t want) t ≤ q.max_memory_mb = ground (
      arith,
      h,
      count-raise m.mem_mb t t want,
      beq_refl t,
      mem_exceeded_exact q.max_memory_mb (count m.mem_mb t) want a b c,
    ) in
    let hourly : length (window (put m.hourly t (window m.hourly t ++ now ∷ [])) t)
        ≤ q.max_tasks_per_hour =
      ground (
        arith,
        h,
        window-put m.hourly t (window m.hourly t ++ now ∷ []),
        length-append (window m.hourly t) (now ∷ []),
      ) in
    (running, cpu, mem, hourly)

pub persist-IsWithin :
    (e : Env) (m : Manager) (q : Quota) (t : String)
    → IsWithin q m t
    → IsWithin q (persist_locked e.disk m).0 t
persist-IsWithin e m q t w = let (file, p) = persist_locked-eq e.disk m in rw p w

-- The claim handed out a sandbox.
abbrev pub has_claimed : Begun → Bool
has_claimed (finished (ok id)) = true
has_claimed _ = false

abbrev pub is_ok : Result Error String → Bool
is_ok (ok id) = true
is_ok (err x) = false

confirm_warm-IsWithin :
    (r : Result Fsjson.Error (Unit {0})) (e : Env) (m : Manager) (before : List Sandbox)
    (s : Sandbox) (behind : List Sandbox) (t : String) (tmpl : Template) (want : ℕ) (q : Quota)
    → IsWithin q m t
    → has_claimed (confirm_warm r e m before s behind t tmpl want).2 ≡ true
    → IsWithin q (confirm_warm r e m before s behind t tmpl want).0 t
confirm_warm-IsWithin (ok _) e m before s behind t tmpl want q w h = w
confirm_warm-IsWithin (err x) e m before s behind t tmpl want q w h = ground (arith, h)

claim_warm-IsWithin :
    (e : Env) (m : Manager) (before : List Sandbox) (s : Sandbox) (behind : List Sandbox)
    (t : String) (tmpl : Template) (task : String) (want : ℕ) (q : Quota)
    → IsInt64 m q t want
    → refusal m q t tmpl want ≡ none
    → has_claimed (claim_warm e m before s behind t tmpl task want).2 ≡ true
    → IsWithin q (claim_warm e m before s behind t tmpl task want).0 t
unfolding claim_warm account_claim refusal
claim_warm-IsWithin e m before s behind t tmpl task want q i h =
    confirm_warm-IsWithin _ e _ before (claim_sandbox s t tmpl task want e.now) behind t tmpl want q
      (persist-IsWithin e _ q t (
        account_claim-IsWithin
          (record m { pool = before ++ claim_sandbox s t tmpl task want e.now ∷ behind }) q t tmpl
          want e.now i h))

seek_warm-IsWithin :
    (e : Env) (f : Bool) (m : Manager) (t : String) (tmpl : Template) (task : String) (want : ℕ)
    (q : Quota)
    → IsInt64 m q t want
    → refusal m q t tmpl want ≡ none
    → has_claimed (seek_warm e f m t tmpl task want).2 ≡ true
    → IsWithin q (seek_warm e f m t tmpl task want).0 t
unfolding seek_warm
seek_warm-IsWithin e f m t tmpl task want q i o h =
    elim (Option-cases (split_first (λ s. is_ready s.state && s.template == tmpl.name) m.pool)) [
      | inl none? ↦ elim (Bool-cases (ltb (length m.pool) m.capacity && f)) [
        | inl y ↦ ground (arith, rw (none?, y, seek_warm) at h)
        | inr z ↦ ground (arith, rw (none?, z, seek_warm) at h)
      ]
      | inr ((before, s, behind), found) ↦
          rw (found, seek_warm)
            (claim_warm-IsWithin e m before s behind t tmpl task want q i o
              (rw (found, seek_warm) at h))
    ]

pub check_quota-IsWithin :
    (e : Env) (f : Bool) (m : Manager) (t : String) (tmpl : Template) (task : String)
    (r : Result MemoryError ℕ)
    → ((want : ℕ) → r ≡ ok want → IsInt64 m (quota_of m t) t want)
    → has_claimed (check_quota e f m t tmpl task r).2 ≡ true
    → IsWithin (quota_of m t) (check_quota e f m t tmpl task r).0 t
unfolding check_quota
check_quota-IsWithin e f m t tmpl task (err x) i h = ground (arith, h)
check_quota-IsWithin e f m t tmpl task (ok want) i h =
    elim (Option-cases (refusal m (quota_of m t) t tmpl want)) [
      | inl open? ↦
          rw (open?, check_quota)
            (seek_warm-IsWithin e f m t tmpl task want (quota_of m t) (i want refl) open?
              (rw (open?, check_quota) at h))
      | inr (note, no?) ↦ ground (arith, rw (no?, check_quota) at h)
    ]

pub quota_of-adopt : (m : Manager) (t : String) → quota_of (adopt_quota m t) t ≡ quota_of m t
unfolding quota_of adopt_quota
quota_of-adopt m t = elim (Option-cases (get m.quotas t)) [
  | inl none? ↦ rw (none?, adopt_quota, get-put, beq_refl) refl
  | inr (q, some?) ↦ rw (some?, adopt_quota) (rw some? refl)
]

pub adopt_quota-mem : (m : Manager) (t : String) → (adopt_quota m t).mem_mb ≡ m.mem_mb
unfolding adopt_quota
adopt_quota-mem m t = elim (Option-cases (get m.quotas t)) [
  | inl none? ↦ rw (none?, adopt_quota) refl
  | inr (q, some?) ↦ rw (some?, adopt_quota) refl
]
