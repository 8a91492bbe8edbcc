-- ===== src/Pool/Pause.antt =====
-- internal/pool/manager.go: `Suspend`, `Resume`, the lookups by task, `RetryCleanups` and `Stats`.
use pvm.Prelude.{
  ℕ, suc, String, Bool, true, false, ◌&&◌, not, Option, none, some, List, [], ◌∷◌, ◌++◌, length,
  ◌==◌, ltb, text_comparable, if◌then◌else◌, Result, ok, err,
}
use pvm.Prelude.Dict.{Dict}
use pvm.Fsjson
use pvm.Pool.Memory.{mem_exceeded}
use pvm.Pool.Types.{
  SandboxState, ready, claimed, paused, Sandbox, Error, quota_exceeded, sandbox_not_found,
  bad_state, persist, Note, Manager, Env, persist_locked, split_first, count, quota_of,
}
use pvm.Pool.Counters.{raise, lower}

unfoldable pub take_mem : Manager → String → ℕ → Manager
take_mem m tenant n = if tenant == "" then m else record m { mem_mb = raise m.mem_mb tenant n }

unfoldable pub give_mem : Manager → String → ℕ → Manager
give_mem m tenant n = if tenant == "" then m else record m { mem_mb = lower m.mem_mb tenant n }

abbrev pub confirm_suspend :
    Result Fsjson.Error (Unit {0})
    → Manager
    → List Sandbox
    → Sandbox
    → Manager × Result Error (Unit {0})
confirm_suspend (ok _) m old s = (m, ok tt)
confirm_suspend (err x) m old s =
    (take_mem (record m { pool = old }) s.tenant s.mem_mb, err (persist x))

unfoldable pub pause_sandbox : Sandbox → Sandbox
pause_sandbox s = record s { state = paused; mem_mb = 0; reserved_mem_mb = s.mem_mb }

unfoldable pub suspend_claimed :
    Env → Manager → List Sandbox → Sandbox → List Sandbox → Manager × Result Error (Unit {0})
unfolding pause_sandbox
suspend_claimed e m before s behind =
    let (m', r) =
      persist_locked e.disk
        (give_mem (record m { pool = before ++ pause_sandbox s ∷ behind }) s.tenant s.mem_mb) in
    confirm_suspend r m' m.pool s

unfoldable pub suspend_found :
    Env
    → Manager
    → SandboxState
    → List Sandbox
    → Sandbox
    → List Sandbox
    → Manager × Result Error (Unit {0})
unfolding suspend_claimed
suspend_found e m paused before s behind = (m, ok tt)
suspend_found e m claimed before s behind = suspend_claimed e m before s behind
suspend_found e m _ before s behind = (m, err bad_state)

unfoldable pub suspend : Env → Manager → String → Manager × Result Error (Unit {0})
unfolding suspend_found
suspend e m id = elim (split_first (λ s. s.id == id) m.pool) [
  | none ↦ (m, err sandbox_not_found)
  | some (before, s, behind) ↦ suspend_found e m s.state before s behind
]

abbrev pub confirm_resume :
    Result Fsjson.Error (Unit {0})
    → Manager
    → List Sandbox
    → Sandbox
    → Manager × Result Error (Unit {0})
confirm_resume (ok _) m old s = (m, ok tt)
confirm_resume (err x) m old s =
    (give_mem (record m { pool = old }) s.tenant s.reserved_mem_mb, err (persist x))

unfoldable pub wake_sandbox : Sandbox → Sandbox
wake_sandbox s = record s { state = claimed; mem_mb = s.reserved_mem_mb; reserved_mem_mb = 0 }

unfoldable pub resume_paused :
    Env → Manager → List Sandbox → Sandbox → List Sandbox → Manager × Result Error (Unit {0})
unfolding wake_sandbox
resume_paused e m before s behind =
    if not (s.tenant == "")
      && ltb 0 s.reserved_mem_mb
      && mem_exceeded (quota_of m s.tenant).max_memory_mb (count m.mem_mb s.tenant)
          s.reserved_mem_mb
    then (m, err quota_exceeded)
    else (let (m', r) = persist_locked e.disk (
          take_mem (record m { pool = before ++ wake_sandbox s ∷ behind }) s.tenant
            s.reserved_mem_mb) in
        confirm_resume r m' m.pool s)

unfoldable pub resume_found :
    Env
    → Manager
    → SandboxState
    → List Sandbox
    → Sandbox
    → List Sandbox
    → Manager × Result Error (Unit {0})
unfolding resume_paused
resume_found e m paused before s behind = resume_paused e m before s behind
resume_found e m _ before s behind = (m, err bad_state)

unfoldable pub resume : Env → Manager → String → Manager × Result Error (Unit {0})
unfolding resume_found
resume e m id = elim (split_first (λ s. s.id == id) m.pool) [
  | none ↦ (m, err sandbox_not_found)
  | some (before, s, behind) ↦ resume_found e m s.state before s behind
]

unfoldable pub sandbox_id_for_task : Manager → String → Option String
sandbox_id_for_task m task =
    if task == "" then none else elim (split_first (λ s. s.task_id == task) m.pool) [
      | none ↦ none
      | some (before, s, behind) ↦ some s.id
    ]

-- Whether a sandbox of the task exists, and what the call on it returned.
unfoldable pub suspend_by_task : Env → Manager → String → Manager × Bool × Result Error (Unit {0})
unfolding sandbox_id_for_task
suspend_by_task e m task = elim (sandbox_id_for_task m task) [
  | none ↦ (m, false, ok tt)
  | some id ↦ let (m', r) = suspend e m id in (m', true, r)
]

unfoldable pub resume_by_task : Env → Manager → String → Manager × Bool × Result Error (Unit {0})
unfolding sandbox_id_for_task
resume_by_task e m task = elim (sandbox_id_for_task m task) [
  | none ↦ (m, false, ok tt)
  | some id ↦ let (m', r) = resume e m id in (m', true, r)
]

unfoldable pub drop_destroyed : (String → Bool) → Dict String Note → Dict String Note
drop_destroyed ok? [] = []
drop_destroyed ok? ((id, why) ∷ d) =
    let rest = drop_destroyed ok? d in if ok? id then rest else (id, why) ∷ rest

-- A sweep with nothing else running: what `Destroyer` manages leaves the queue.
unfoldable pub retry_cleanups : Option (String → Bool) → Manager → Manager
unfolding drop_destroyed
retry_cleanups none m = m
retry_cleanups (some ok?) m =
    if m.cleanup_sweeping
    then m
    else record m { pending_cleanups = drop_destroyed ok? m.pending_cleanups }

abbrev in_state : (SandboxState → Bool) → List Sandbox → ℕ
in_state p [] = 0
in_state p (s ∷ ss) = let rest = in_state p ss in if p s.state then suc rest else rest

abbrev is_claimed : SandboxState → Bool
is_claimed claimed = true
is_claimed _ = false

abbrev is_ready : SandboxState → Bool
is_ready ready = true
is_ready _ = false

unfoldable pub stats : Manager → ℕ × ℕ × ℕ
stats m = (in_state is_ready m.pool, in_state is_claimed m.pool, length m.pool)
