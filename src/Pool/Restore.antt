-- ===== src/Pool/Restore.antt =====
-- internal/pool/persist.go: `EnablePersistence`, which reloads the pool and the quotas and counts what
-- the tenants hold.
use pvm.Prelude.{
  ◌+◌, ◌%◌, ◌^◌, ◌<◌, String, ◌≡◌, refl, Bool, not, List, [], ◌∷◌, ◌++◌, All, ◌==◌, arith, ltb,
  text_comparable, nat_comparable, if◌then◌else◌, inl, inr, Bool-cases, Result, ok, err,
}
use pvm.Prelude.Dict.{Dict, put}
use pvm.Fsjson
use pvm.Pool.Types.{
  SandboxState, ready, claimed, paused, warming, destroying, Sandbox, Quota, Manager, PoolFile, Env,
  persist_locked, count, window,
}
use pvm.Pool.Counters.{raise, raise_int, count-raise, count-raise_int}
use pvm.Pool.Tally.{share, total}
use pvm.Pool.Books.{IsOwned, one_of, cpu_of, mem_of}

-- What reading the store gave.
pub data Stored : Type 0 where
  missing unreadable blank corrupt : Stored
  loaded : PoolFile → Stored

pub data StartError : Type 0 where
  empty_path no_directory already_enabled unread : StartError
  unwritten : Fsjson.Error → StartError

abbrev pub hold_slot : Manager → Sandbox → Manager
hold_slot m s = record m {
  running = raise m.running s.tenant 1;
  cpu = raise_int m.cpu s.tenant s.cpu;
  hourly = put m.hourly s.tenant (window m.hourly s.tenant ++ s.claimed_at ∷ []);
}

abbrev pub count_in : SandboxState → Manager → Sandbox → Manager
count_in claimed m s = record (hold_slot m s) { mem_mb = raise m.mem_mb s.tenant s.mem_mb }
count_in paused m s = hold_slot m s
count_in _ m s = m

unfoldable pub count_restored : Manager → Sandbox → Manager
count_restored m s = if s.tenant == "" then m else count_in s.state m s

unfoldable pub rebuild : Manager → List Sandbox → Manager
unfolding count_restored
rebuild m [] = m
rebuild m (s ∷ ss) = rebuild (count_restored m s) ss

unfoldable pub merge_quotas : Dict String Quota → Dict String Quota → Dict String Quota
merge_quotas into [] = into
merge_quotas into ((t, q) ∷ rest) = merge_quotas (put into t q) rest

unfoldable pub load : Manager → PoolFile → Manager
unfolding rebuild merge_quotas
load m f =
    let pool = m.pool ++ f.pool in
    rebuild
      (record m {
        pool = pool;
        quotas = merge_quotas m.quotas f.quotas;
        capacity = if ltb 0 f.capacity then f.capacity else m.capacity;
      })
      pool

abbrev pub confirm_start :
    Result Fsjson.Error (Unit {0}) → Manager → Manager → Manager × Result StartError (Unit {0})
confirm_start (ok _) m' m = (m', ok tt)
confirm_start (err x) m' m = (record m { file = m'.file; persist_path = "" }, err (unwritten x))

abbrev pub first_persist : Env → Manager → Manager → Manager × Result StartError (Unit {0})
first_persist e m' m = let (m'', r) = persist_locked e.disk m' in confirm_start r m'' m

unfoldable pub restore : Env → Manager → String → Stored → Manager × Result StartError (Unit {0})
unfolding load
restore e m path unreadable = (record m { persist_path = "" }, err unread)
restore e m path (loaded f) = first_persist e (load (record m { persist_path = path }) f) m
restore e m path _ = first_persist e (record m { persist_path = path }) m

-- `made_directory` is whether `os.MkdirAll` succeeded.
unfoldable pub enable_persistence :
    Env → Bool → Manager → String → Stored → Manager × Result StartError (Unit {0})
unfolding restore
enable_persistence e made_directory m path stored =
    if path == ""
    then (m, err empty_path)
    else if not made_directory
    then (m, err no_directory)
    else if not (m.persist_path == "")
    then (m, err already_enabled)
    else restore e m path stored

-- One sandbox counts as the invariant counts it.
abbrev Counts : Manager → Manager → Sandbox → String → Type 0
Counts m m' s t =
    (count m'.running t ≡ count m.running t + share one_of t s)
    × (count m.cpu t < 2 ^ 64 → count m'.cpu t ≡ (count m.cpu t + share cpu_of t s) % 2 ^ 64)
    × (count m'.mem_mb t ≡ count m.mem_mb t + share mem_of t s)

count_in-Counts :
    (st : SandboxState) (m : Manager) (s : Sandbox) (t : String)
    → s.state ≡ st
    → IsOwned s
    → Counts m (count_in st m s) s t
count_in-Counts ready m s t q o = rw q (ground arith, λ k. ground arith, ground arith)
count_in-Counts claimed m s t q o = rw q (
  ground (arith, count-raise m.running s.tenant t 1),
  λ k. ground (arith, count-raise_int m.cpu s.tenant t s.cpu),
  ground (arith, count-raise m.mem_mb s.tenant t s.mem_mb),
)
count_in-Counts paused m s t q o = rw q (
  ground (arith, count-raise m.running s.tenant t 1),
  λ k. ground (arith, count-raise_int m.cpu s.tenant t s.cpu),
  ground (arith, rw q at o.1),
)
count_in-Counts warming m s t q o = rw q (ground arith, λ k. ground arith, ground arith)
count_in-Counts destroying m s t q o = rw q (ground arith, λ k. ground arith, ground arith)

count_restored-Counts :
    (m : Manager) (s : Sandbox) (t : String) → IsOwned s → Counts m (count_restored m s) s t
unfolding count_restored
count_restored-Counts m s t o = elim (Bool-cases (s.tenant == "")) [
  | inl nobody ↦
      rw (nobody, count_restored)
        (rw (rw nobody at o.0) (ground arith, λ k. ground arith, ground arith))
  | inr tenant ↦ rw (tenant, count_restored) (count_in-Counts s.state m s t refl o)
]

abbrev Totals : Manager → Manager → List Sandbox → String → Type 0
Totals m m' ss t =
    (count m'.running t ≡ count m.running t + total one_of t ss)
    × (count m.cpu t < 2 ^ 64 → count m'.cpu t ≡ (count m.cpu t + total cpu_of t ss) % 2 ^ 64)
    × (count m'.mem_mb t ≡ count m.mem_mb t + total mem_of t ss)

pub rebuild-Totals :
    (m : Manager) (ss : List Sandbox) (t : String) → All IsOwned ss → Totals m (rebuild m ss) ss t
unfolding rebuild total
rebuild-Totals m [] t o = (omega arith, λ k. omega arith, omega arith)
rebuild-Totals m (s ∷ ss) t o =
    let (a, b, c) = count_restored-Counts m s t o.0 in
    let (x, y, z) = rebuild-Totals (count_restored m s) ss t o.1 in
    (omega arith, λ k. let now = b k in let end = y (omega arith) in omega arith, omega arith)

count_restored-pool : (m : Manager) (s : Sandbox) → (count_restored m s).pool ≡ m.pool
unfolding count_restored
count_restored-pool m s = ground arith

pub rebuild-pool : (m : Manager) (ss : List Sandbox) → (rebuild m ss).pool ≡ m.pool
unfolding rebuild
rebuild-pool m [] = refl
rebuild-pool m (s ∷ ss) = rw (rebuild-pool (count_restored m s) ss) (count_restored-pool m s)
