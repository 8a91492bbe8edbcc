-- ===== src/Pool/Types.antt =====
-- internal/pool/manager.go: sandboxes, quotas and the manager's state; persist.go: the store. Each `cpu`,
-- and `max_cpu`, is the 64-bit word of a Go int.
use pvm.Prelude.{
  ℕ, String, Bool, Option, none, some, List, [], ◌∷◌, ◌==◌, text_comparable, nat_comparable,
  if◌then◌else◌, Result, ok, ◌≡◌, Bool-cases, inl, inr,
}
use pvm.Prelude.Dict.{Dict, get}
use pvm.Fsjson
use pvm.Fsjson.{Disk}
use pvm.Pool.Memory.{MemoryError}

pub data SandboxState : Type 0 where
  ready claimed paused warming destroying : SandboxState

pub record Template : Type 0 where
  pub name : String
  pub base_image : String
  pub kernel : String
  pub memory : String
  pub cpu : ℕ

pub record Sandbox : Type 0 where
  pub id : String
  pub template : String
  pub state : SandboxState
  pub task_id : String
  pub tenant : String
  pub cpu : ℕ
  pub mem_mb : ℕ
  pub created_at : ℕ
  pub claimed_at : ℕ
  pub reserved_mem_mb : ℕ

pub record Quota : Type 0 where
  pub max_concurrent : ℕ
  pub max_cpu : ℕ
  pub max_memory_mb : ℕ
  pub max_tasks_per_hour : ℕ

abbrev pub default_quota : Quota
default_quota = record {
  max_concurrent = 4;
  max_cpu = 4;
  max_memory_mb = 4096;
  max_tasks_per_hour = 20;
}

pub data Error : Type 0 where
  quota_exceeded no_capacity sandbox_not_found bad_state destroy_failed : Error
  bad_memory : MemoryError → Error
  persist : Fsjson.Error → Error

-- The reasons that the decision log and the cleanup queue record.
pub data Note : Type 0 where
  bad_template_memory hourly_task_rate concurrency cpu_sum memory claimed_warm : Note
  claimed_warm_persist_failed no_capacity_note factory_failed no_capacity_after_race : Note
  hourly_after_factory quota_after_factory created_on_demand created_persist_failed : Note
  warm_capacity_recheck warm_persist_failed : Note

pub record DecisionLog : Type 0 where
  pub allow : Bool
  pub tenant : String
  pub note : Note

-- What the store file holds.
pub record PoolFile : Type 0 where
  pub pool : List Sandbox
  pub quotas : Dict String Quota
  pub capacity : ℕ

pub record Manager : Type 0 where
  pub pool : List Sandbox
  pub capacity : ℕ
  pub quotas : Dict String Quota
  pub running : Dict String ℕ
  pub cpu : Dict String ℕ
  pub mem_mb : Dict String ℕ
  pub hourly : Dict String (List ℕ)
  pub pending_cleanups : Dict String Note
  pub persist_path : String
  pub cleanup_sweeping : Bool
  pub file : PoolFile

-- The clock and the disk during one critical section.
pub record Env : Type 0 where
  pub now : ℕ
  pub disk : Disk

unfoldable pub persist_locked : Disk → Manager → Manager × Result Fsjson.Error (Unit {0})
persist_locked d m =
    if m.persist_path == ""
    then (m, ok tt)
    else (let (file, r) =
          Fsjson.write d m.file
            (record { pool = m.pool; quotas = m.quotas; capacity = m.capacity }) in
        (record m { file = file }, r))

abbrev pub Split : Type 0
Split = List Sandbox × Sandbox × List Sandbox

unfoldable pub prepend : Sandbox → Option Split → Option Split
prepend x none = none
prepend x (some (before, hit, behind)) = some (x ∷ before, hit, behind)

-- `for i, s := range m.pool` up to the first sandbox that passes a test: what stands before it, the
-- sandbox, and what follows.
unfoldable pub split_first : (Sandbox → Bool) → List Sandbox → Option Split
unfolding prepend
split_first p [] = none
split_first p (s ∷ ss) =
    let rest = prepend s (split_first p ss) in if p s then some ([], s, ss) else rest

abbrev or_zero : Option ℕ → ℕ
or_zero none = 0
or_zero (some n) = n

-- m[tenant] of a map of counters.
unfoldable pub count : Dict String ℕ → String → ℕ
count d t = or_zero (get d t)

abbrev or_default : Option Quota → Quota
or_default none = default_quota
or_default (some q) = q

unfoldable pub quota_of : Manager → String → Quota
quota_of m t = or_default (get m.quotas t)

abbrev or_none : Option (List ℕ) → List ℕ
or_none none = []
or_none (some ts) = ts

unfoldable pub window : Dict String (List ℕ) → String → List ℕ
window d t = or_none (get d t)

-- A write of the store changes the file only.
pub persist_locked-eq :
    (d : Disk) (m : Manager)
    → (file : PoolFile) × ((persist_locked d m).0 ≡ record m { file = file })
unfolding persist_locked
persist_locked-eq d m = elim (Bool-cases (m.persist_path == "")) [
  | inl off ↦ (m.file, rw (off, persist_locked))
  | inr on ↦ (
    (Fsjson.write d m.file (record { pool = m.pool; quotas = m.quotas; capacity = m.capacity })).0,
    rw (on, persist_locked),
  )
]
