-- ===== src/Pool/Granted.antt =====
-- `claim` of internal/pool/manager.go against the quota of its tenant, on the counters that it leaves.
use pvm.Prelude.{
  codes, ℕ, ◌≤◌, ◌<◌, ◌^◌, ◌==◌, String, ◌≡◌, refl, Bool, true, false, Option, none, some, List, [],
  ◌∷◌, ◌++◌, arith, text_comparable, inl, inr, Bool-cases, Option-cases, Result, ok, err, leb,
  length, beq_refl, eq_iff,
}
use pvm.Prelude.Dict.{Dict, get, get-put}
use pvm.Fsjson
use pvm.Pool.Memory.{max_int64, parse_mem_mb, parse_bytes-le}
use pvm.Pool.Types.{Sandbox, Template, Quota, Manager, Env, Note, count, quota_of}
use pvm.Pool.Counters.{
  raise, lower, raise_int, lower_int, count-raise, count-lower, count-raise_int, count-lower_int,
  minus_int-raised, account_claim, prune_hourly,
}
use pvm.Pool.Claim.{refusal, adopt_quota, begin_claim, destroy}
use pvm.Pool.Commit.{
  second_refusal, confirm_created, add_created, commit_pruned, commit_claim, new_sandbox,
}
use pvm.Pool.Limits.{
  IsWithin, IsInt64, has_claimed, is_ok, account_claim-IsWithin, persist-IsWithin,
  check_quota-IsWithin, quota_of-adopt, adopt_quota-mem,
}

-- A claim that returns a warm sandbox leaves the tenant's counters within its quota (the default one
-- when it has none): running sandboxes, cpu, memory and the claims of the last hour; the cpu counter as
-- the Go int that it is, after any wrap; provided that the quota's memory limit and the memory that the
-- tenant holds are 64-bit numbers, as the fields that hold them.
pub begin_claim-IsWithin :
    (e : Env) (f : Bool) (m : Manager) (t : String) (tmpl : Template) (task : String)
    → (quota_of m t).max_memory_mb ≤ max_int64
    → count m.mem_mb t ≤ max_int64
    → has_claimed (begin_claim e f m t tmpl task).2 ≡ true
    → IsWithin (quota_of m t) (begin_claim e f m t tmpl task).0 t
unfolding begin_claim prune_hourly parse_mem_mb quota_of
begin_claim-IsWithin e f m t tmpl task a b h =
    let m' = prune_hourly (adopt_quota m t) t e.now in
    rw (← quota_of-adopt m t) (
      check_quota-IsWithin e f m' t tmpl task (parse_mem_mb tmpl.memory)
        (λ want r. (
          rw (quota_of-adopt m t) a,
          rw (adopt_quota-mem m t) b,
          parse_bytes-le (codes tmpl.memory) want r,
        ))
        h)

confirm_created-IsWithin :
    (r : Result Fsjson.Error (Unit {0})) (e : Env) (d : Option Bool) (m : Manager)
    (old : List Sandbox) (id t : String) (tmpl : Template) (want : ℕ) (q : Quota)
    → IsWithin q m t
    → is_ok (confirm_created r e d m old id t tmpl want).2 ≡ true
    → IsWithin q (confirm_created r e d m old id t tmpl want).0 t
confirm_created-IsWithin (ok _) e d m old id t tmpl want q w h = w
confirm_created-IsWithin (err x) e d m old id t tmpl want q w h = ground (arith, h)

second_refusal-none :
    (m : Manager) (q : Quota) (t : String) (tmpl : Template) (want : ℕ)
    → second_refusal m q t tmpl want ≡ none
    → refusal m q t tmpl want ≡ none
unfolding second_refusal refusal
second_refusal-none m q t tmpl want h = ground (arith, h)

add_created-IsWithin :
    (e : Env) (d : Option Bool) (m : Manager) (id t : String) (tmpl : Template) (task : String)
    (want : ℕ) (q : Quota)
    → IsInt64 m q t want
    → refusal m q t tmpl want ≡ none
    → is_ok (add_created e d m id t tmpl task want).2 ≡ true
    → IsWithin q (add_created e d m id t tmpl task want).0 t
unfolding add_created account_claim refusal
add_created-IsWithin e d m id t tmpl task want q i o =
    confirm_created-IsWithin _ e d _ m.pool id t tmpl want q (
      persist-IsWithin e _ q t (
        account_claim-IsWithin
          (record m { pool = m.pool ++ new_sandbox id t tmpl task want e.now ∷ [] }) q t tmpl want
          e.now i o))

-- A claim that comes back from `Factory` and returns the sandbox leaves the tenant's counters within
-- its quota, whatever other claims took in between, since the limits are checked again on the state it
-- finds; the cpu counter as the Go int that it is, after any wrap; provided that the quota's memory
-- limit, the memory that the tenant holds and the memory asked for are 64-bit numbers.
pub commit_claim-IsWithin :
    (e : Env) (d : Option Bool) (m : Manager) (id t : String) (tmpl : Template) (task : String)
    (want : ℕ)
    → IsInt64 m (quota_of m t) t want
    → is_ok (commit_claim e d m id t tmpl task want).2 ≡ true
    → IsWithin (quota_of m t) (commit_claim e d m id t tmpl task want).0 t
unfolding commit_claim commit_pruned prune_hourly quota_of
commit_claim-IsWithin e d m id t tmpl task want i h =
    elim (Bool-cases (leb m.capacity (length m.pool))) [
      | inl full ↦ ground (arith, rw (full, commit_claim) at h)
      | inr room ↦
          elim (Option-cases (second_refusal (prune_hourly m t e.now) (quota_of m t) t tmpl want)) [
            | inl open? ↦
                rw (room, open?, commit_claim, commit_pruned)
                  (add_created-IsWithin e d (prune_hourly m t e.now) id t tmpl task want
                    (quota_of m t) i
                    (second_refusal-none (prune_hourly m t e.now) (quota_of m t) t tmpl want open?)
                    (rw (room, open?, commit_claim, commit_pruned) at h))
            | inr (note, no?) ↦ ground (arith, rw (room, no?, commit_claim, commit_pruned) at h)
          ]
    ]

pub lower-raise :
    (d : Dict String ℕ) (t j : String) (n : ℕ) → count (lower (raise d t n) t n) j ≡ count d j
lower-raise d t j n = ground (arith, count-lower (raise d t n) t j n, count-raise d t j n)

pub lower_int-raise_int :
    (d : Dict String ℕ) (t j : String) (n : ℕ)
    → count d t < 2 ^ 63
    → count (lower_int (raise_int d t n) t n) j ≡ count d j
lower_int-raise_int d t j n h = elim (Bool-cases (t == j)) [
  | inl same ↦
      rw (count-lower_int (raise_int d t n) t j n, same, count-raise_int d t j n, same)
        (minus_int-raised (count d j) n (rw (← (eq_iff t j).0 same) h))
  | inr other ↦
      rw (count-lower_int (raise_int d t n) t j n, other, count-raise_int d t j n, other) refl
]

-- The pool is as before, and so are the counters of every tenant.
abbrev pub IsRestored : Manager → Manager → Type 0
IsRestored m m' =
    (m'.pool ≡ m.pool)
    × ((j : String)
        → (count m'.running j ≡ count m.running j)
          × (count m'.cpu j ≡ count m.cpu j)
          × (count m'.mem_mb j ≡ count m.mem_mb j))

-- The sandbox is gone, or the cleanup queue holds it.
abbrev pub IsCleaned : Option Bool → Manager → String → Type 0
IsCleaned (some false) m id = (note : Note) × (get m.pending_cleanups id ≡ some note)
IsCleaned _ m id = Unit

pub destroy-IsRestored :
    (d : Option Bool) (m m' : Manager) (id : String) (why : Note)
    → IsRestored m m'
    → IsRestored m (destroy d m' id why) × IsCleaned d (destroy d m' id why) id
unfolding destroy
destroy-IsRestored none m m' id why r = (r, tt)
destroy-IsRestored (some true) m m' id why r = (r, tt)
destroy-IsRestored (some false) m m' id why r = (r, (why, rw (get-put, beq_refl) refl))
