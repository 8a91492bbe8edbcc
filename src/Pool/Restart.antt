-- ===== src/Pool/Restart.antt =====
-- `EnablePersistence` of internal/pool/persist.go on a manager that has just been made, and where it
-- fails.
use pvm.Prelude.{
  ℕ, ◌+◌, ◌%◌, ◌^◌, ◌<◌, String, ◌≡◌, refl, ap, ◌∙◌, Bool, true, false, List, [], ◌++◌, All, ◌==◌,
  arith, ltb, text_comparable, nat_comparable, if◌then◌else◌, inl, inr, Bool-cases, Result, ok, err,
}
use pvm.Prelude.Dict.{Dict, get}
use pvm.Fsjson
use pvm.Pool.Types.{Sandbox, Manager, PoolFile, Env, persist_locked, persist_locked-eq, count}
use pvm.Pool.Tally.{total, Tally}
use pvm.Pool.Signed.{IntTally}
use pvm.Pool.Books.{IsOwned, IsBalanced, Books-agree, one_of, cpu_of, mem_of}
use pvm.Pool.Balance.{persist-IsBalanced}
use pvm.Pool.Restore.{
  Stored, loaded, missing, unreadable, blank, corrupt, merge_quotas, load, confirm_start,
  first_persist, restore, enable_persistence, rebuild-Totals, rebuild-pool,
}

-- As `NewManager` makes it.
abbrev pub IsFresh : Manager → Type 0
IsFresh m = (m.pool ≡ []) × (m.running ≡ []) × (m.cpu ≡ []) × (m.mem_mb ≡ [])

count-empty : (t : String) → count [] t ≡ 0
unfolding count get
count-empty t = refl

Tally-rebuilt :
    (d d' : Dict String ℕ) (f : Sandbox → ℕ) (pool : List Sandbox)
    → d ≡ []
    → ((t : String) → count d' t ≡ count d t + total f t pool)
    → Tally d' f pool
Tally-rebuilt d d' f pool q h = record { at = λ t. h t ∙ rw q (omega (arith, count-empty t)) }

IntTally-rebuilt :
    (d d' : Dict String ℕ) (f : Sandbox → ℕ) (pool : List Sandbox)
    → d ≡ []
    → ((t : String) → count d t < 2 ^ 64 → count d' t ≡ (count d t + total f t pool) % 2 ^ 64)
    → IntTally d' f pool
IntTally-rebuilt d d' f pool q h = record {
  at = λ t.
      let none? : count d t ≡ 0 = rw q (count-empty t) in
      let sum = h t (omega arith) in omega arith;
}

load-IsBalanced :
    (m : Manager) (f : PoolFile) → IsFresh m → All IsOwned f.pool → IsBalanced (load m f)
unfolding load
load-IsBalanced m f (p, a, b, c) o =
    let start = record m {
      pool = m.pool ++ f.pool;
      quotas = merge_quotas m.quotas f.quotas;
      capacity = if ltb 0 f.capacity then f.capacity else m.capacity;
    } in
    let owned : All IsOwned (m.pool ++ f.pool) = rw p o in
    rw (rebuild-pool start (m.pool ++ f.pool)) (record {
      owned = owned;
      running_sum =
          Tally-rebuilt m.running _ one_of _ a
            (λ t. (rebuild-Totals start (m.pool ++ f.pool) t owned).0);
      cpu_sum =
          IntTally-rebuilt m.cpu _ cpu_of _ b
            (λ t. (rebuild-Totals start (m.pool ++ f.pool) t owned).1);
      mem_sum =
          Tally-rebuilt m.mem_mb _ mem_of _ c
            (λ t. (rebuild-Totals start (m.pool ++ f.pool) t owned).2);
    })

load-pool : (m : Manager) (f : PoolFile) → IsFresh m → (load m f).pool ≡ f.pool
unfolding load
load-pool m f (p, a, b, c) =
    let start = record m {
      pool = m.pool ++ f.pool;
      quotas = merge_quotas m.quotas f.quotas;
      capacity = if ltb 0 f.capacity then f.capacity else m.capacity;
    } in
    rebuild-pool start (m.pool ++ f.pool) ∙ ap (λ xs. xs ++ f.pool) p

confirm_start-IsBalanced :
    (r : Result Fsjson.Error (Unit {0})) (m' m : Manager)
    → IsBalanced m'
    → IsBalanced m
    → IsBalanced (confirm_start r m' m).0
confirm_start-IsBalanced (ok _) m' m b was = b
confirm_start-IsBalanced (err x) m' m b was = was

pub fresh-IsBalanced : (m : Manager) → IsFresh m → IsBalanced m
unfolding total
fresh-IsBalanced m (p, a, b, c) = rw p (record {
  owned = tt;
  running_sum = record { at = λ t. rw a (count-empty t) };
  cpu_sum = record { at = λ t. rw b (count-empty t) };
  mem_sum = record { at = λ t. rw c (count-empty t) };
})

-- When a manager that has just been made turns its store on, whatever the directory, the store and the
-- disk do, its counters agree with its pool afterwards, provided that every sandbox of a store that
-- could be read has a tenant exactly if it is claimed or paused, and no charged memory if it is paused.
pub enable_persistence-IsBalanced :
    (e : Env) (made? : Bool) (m : Manager) (path : String) (stored : Stored)
    → IsFresh m
    → ((f : PoolFile) → stored ≡ loaded f → All IsOwned f.pool)
    → IsBalanced (enable_persistence e made? m path stored).0
unfolding enable_persistence restore
enable_persistence-IsBalanced e made? m path stored fresh o =
    let was = fresh-IsBalanced m fresh in
    elim (Bool-cases (path == "")) [
      | inl z ↦ rw (z, enable_persistence) was
      | inr y ↦ elim (Bool-cases made?) [
        | inr z ↦ rw (y, z, enable_persistence) was
        | inl x ↦ elim (Bool-cases (m.persist_path == "")) [
          | inr z ↦ rw (y, x, z, enable_persistence) was
          | inl w ↦ rw (y, x, w, enable_persistence) (go stored o was)
        ]
      ]
    ]
  where
    started : (m' : Manager) → IsBalanced m' → IsBalanced m → IsBalanced (first_persist e m' m).0
    started m' b was = confirm_start-IsBalanced _ _ m (persist-IsBalanced e m' b) was

    go :
        (stored : Stored)
        → ((f : PoolFile) → stored ≡ loaded f → All IsOwned f.pool)
        → IsBalanced m
        → IsBalanced (restore e m path stored).0
    go missing o was = started (record m { persist_path = path }) was was
    go unreadable o was = was
    go blank o was = started (record m { persist_path = path }) was was
    go corrupt o was = started (record m { persist_path = path }) was was
    go (loaded f) o was =
        started (load (record m { persist_path = path }) f)
          (load-IsBalanced (record m { persist_path = path }) f fresh (o f refl)) was

confirm_start-ok :
    (r : Result Fsjson.Error (Unit {0})) (m' m : Manager)
    → (confirm_start r m' m).1 ≡ ok tt
    → (confirm_start r m' m).0 ≡ m'
confirm_start-ok (ok _) m' m h = refl
confirm_start-ok (err x) m' m h = ground (arith, h)

-- A restart is faithful: when a manager whose counters agree with its pool has written the store, a
-- new manager that turns the store on and succeeds has the same pool, and the same counters of running
-- sandboxes, cpu and memory for every tenant.
pub restart-counters :
    (e : Env) (m n : Manager) (path : String) (f : PoolFile) (t : String)
    → IsBalanced m
    → f.pool ≡ m.pool
    → IsFresh n
    → n.persist_path ≡ ""
    → (path == "") ≡ false
    → (enable_persistence e true n path (loaded f)).1 ≡ ok tt
    → (let n' = (enable_persistence e true n path (loaded f)).0 in
        (n'.pool ≡ m.pool)
        × (count n'.running t ≡ count m.running t)
        × (count n'.cpu t ≡ count m.cpu t)
        × (count n'.mem_mb t ≡ count m.mem_mb t))
unfolding enable_persistence restore
restart-counters e m n path f t b stored fresh off p h =
    let full = load (record n { persist_path = path }) f in
    let books : IsBalanced full =
      load-IsBalanced (record n { persist_path = path }) f fresh (rw stored b.owned) in
    let (file, q) = persist_locked-eq e.disk full in
    let same =
      confirm_start-ok (persist_locked e.disk full).1 (persist_locked e.disk full).0
        (record n { persist_path = "" }) (rw (p, off, enable_persistence) at h) in
    let pool : full.pool ≡ m.pool = load-pool (record n { persist_path = path }) f fresh ∙ stored in
    let (running, cpu, mem) = Books-agree full m t books b pool in
    rw (p, off, enable_persistence) (rw same (rw q (pool, running, cpu, mem)))
