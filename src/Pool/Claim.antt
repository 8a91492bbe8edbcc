-- ===== src/Pool/Claim.antt =====
-- internal/pool/manager.go: `claim` before `Factory` runs, and `destroy`.
use pvm.Prelude.{
  ℕ, ◌+◌, ◌%◌, ◌^◌, String, Bool, true, false, ◌&&◌, Option, none, some, List, [], ◌∷◌, ◌++◌,
  length, ◌==◌, ltb, leb, text_comparable, if◌then◌else◌, Result, ok, err,
}
use pvm.Prelude.Dict.{get, put}
use pvm.Fsjson
use pvm.Pool.Memory.{parse_mem_mb, mem_exceeded, MemoryError}
use pvm.Pool.Types.{
  SandboxState, ready, claimed, Template, Sandbox, Quota, default_quota, Error, quota_exceeded,
  no_capacity, bad_memory, persist, Note, bad_template_memory, hourly_task_rate, concurrency,
  cpu_sum, memory, claimed_warm, claimed_warm_persist_failed, no_capacity_note, DecisionLog,
  Manager, Env, persist_locked, split_first, count, quota_of, window,
}
use pvm.Pool.Counters.{exceeds_int, prune_hourly, account_claim, rollback_claim}

abbrev pub is_ready : SandboxState → Bool
is_ready ready = true
is_ready _ = false

-- A claim that is decided, or one that waits for `Factory` to build its sandbox.
pub data Begun : Type 0 where
  finished : Result Error String → Begun
  must_create : ℕ → Begun

unfoldable pub adopt_quota : Manager → String → Manager
adopt_quota m tenant = elim (get m.quotas tenant) [
  | some q ↦ m
  | none ↦ record m { quotas = put m.quotas tenant default_quota }
]

-- The four limits, in the order of the checks.
unfoldable pub refusal : Manager → Quota → String → Template → ℕ → Option Note
unfolding exceeds_int
refusal m q tenant tmpl want =
    if leb q.max_tasks_per_hour (length (window m.hourly tenant))
    then some hourly_task_rate
    else if leb q.max_concurrent (count m.running tenant)
    then some concurrency
    else if exceeds_int ((count m.cpu tenant + tmpl.cpu) % 2 ^ 64) q.max_cpu
    then some cpu_sum
    else if mem_exceeded q.max_memory_mb (count m.mem_mb tenant) want
    then some memory
    else none

unfoldable pub claim_sandbox : Sandbox → String → Template → String → ℕ → ℕ → Sandbox
claim_sandbox s tenant tmpl task want now = record s {
  state = claimed;
  task_id = task;
  tenant = tenant;
  cpu = tmpl.cpu;
  mem_mb = want;
  reserved_mem_mb = 0;
  claimed_at = now;
}

unfoldable pub unclaim_sandbox : Sandbox → Sandbox
unclaim_sandbox s = record s {
  state = ready;
  task_id = "";
  tenant = "";
  cpu = 0;
  mem_mb = 0;
  reserved_mem_mb = 0;
  claimed_at = 0;
}

abbrev pub log_row : String → Note → Bool → List DecisionLog
log_row tenant note allow = record { allow = allow; tenant = tenant; note = note } ∷ []

abbrev pub confirm_warm :
    Result Fsjson.Error (Unit {0})
    → Env
    → Manager
    → List Sandbox
    → Sandbox
    → List Sandbox
    → String
    → Template
    → ℕ
    → Manager × List DecisionLog × Begun
confirm_warm (ok _) e m before s behind tenant tmpl want =
    (m, log_row tenant claimed_warm true, finished (ok s.id))
confirm_warm (err x) e m before s behind tenant tmpl want = (
  record (rollback_claim m tenant tmpl.cpu want e.now) {
    pool = before ++ unclaim_sandbox s ∷ behind;
  },
  log_row tenant claimed_warm_persist_failed false,
  finished (err (persist x)),
)

unfoldable pub claim_warm :
    Env
    → Manager
    → List Sandbox
    → Sandbox
    → List Sandbox
    → String
    → Template
    → String
    → ℕ
    → Manager × List DecisionLog × Begun
unfolding claim_sandbox
claim_warm e m before s0 behind tenant tmpl task want =
    let s = claim_sandbox s0 tenant tmpl task want e.now in
    let (m', r) =
      persist_locked e.disk
        (account_claim (record m { pool = before ++ s ∷ behind }) tenant tmpl.cpu want e.now) in
    confirm_warm r e m' before s behind tenant tmpl want

unfoldable pub seek_warm :
    Env → Bool → Manager → String → Template → String → ℕ → Manager × List DecisionLog × Begun
unfolding claim_warm
seek_warm e has_factory m tenant tmpl task want =
    elim (split_first (λ s. is_ready s.state && s.template == tmpl.name) m.pool) [
      | some (before, s, behind) ↦ claim_warm e m before s behind tenant tmpl task want
      | none ↦
          if ltb (length m.pool) m.capacity && has_factory
          then (m, [], must_create want)
          else (m, log_row tenant no_capacity_note false, finished (err no_capacity))
    ]

unfoldable pub check_quota :
    Env
    → Bool
    → Manager
    → String
    → Template
    → String
    → Result MemoryError ℕ
    → Manager × List DecisionLog × Begun
unfolding refusal seek_warm
check_quota e has_factory m tenant tmpl task (err x) =
    (m, log_row tenant bad_template_memory false, finished (err (bad_memory x)))
check_quota e has_factory m tenant tmpl task (ok want) =
    elim (refusal m (quota_of m tenant) tenant tmpl want) [
      | some note ↦ (m, log_row tenant note false, finished (err quota_exceeded))
      | none ↦ seek_warm e has_factory m tenant tmpl task want
    ]

-- Up to the call of `Factory`; `has_factory` is `m.Factory != nil`.
unfoldable pub begin_claim :
    Env → Bool → Manager → String → Template → String → Manager × List DecisionLog × Begun
unfolding adopt_quota check_quota
begin_claim e has_factory m tenant tmpl task =
    check_quota e has_factory (prune_hourly (adopt_quota m tenant) tenant e.now) tenant tmpl task
      (parse_mem_mb tmpl.memory)

-- `Destroyer` is `none` where the field is nil, and else tells whether it succeeded.
unfoldable pub destroy : Option Bool → Manager → String → Note → Manager
destroy none m id reason = m
destroy (some true) m id reason = m
destroy (some false) m id reason = record m { pending_cleanups = put m.pending_cleanups id reason }
