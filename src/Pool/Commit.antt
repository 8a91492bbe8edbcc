-- ===== src/Pool/Commit.antt =====
-- internal/pool/manager.go: `claim` after `Factory` ran.
use pvm.Prelude.{
  ℕ, String, Bool, true, false, Option, none, some, List, [], ◌∷◌, ◌++◌, length, leb,
  text_comparable, if◌then◌else◌, Result, ok, err,
}
use pvm.Fsjson
use pvm.Pool.Types.{
  claimed, Template, Sandbox, Quota, Error, quota_exceeded, no_capacity, persist, Note,
  hourly_task_rate, factory_failed, no_capacity_after_race, hourly_after_factory,
  quota_after_factory, created_on_demand, created_persist_failed, DecisionLog, Manager, Env,
  persist_locked, quota_of,
}
use pvm.Pool.Counters.{prune_hourly, account_claim, rollback_claim}
use pvm.Pool.Claim.{refusal, log_row, destroy}

-- The limits again, with what other claims took while `Factory` ran.
unfoldable pub second_refusal : Manager → Quota → String → Template → ℕ → Option Note
unfolding refusal
second_refusal m q tenant tmpl want = elim (refusal m q tenant tmpl want) [
  | none ↦ none
  | some hourly_task_rate ↦ some hourly_after_factory
  | some other ↦ some quota_after_factory
]

unfoldable pub new_sandbox : String → String → Template → String → ℕ → ℕ → Sandbox
new_sandbox id tenant tmpl task want now = record {
  id = id;
  template = tmpl.name;
  state = claimed;
  task_id = task;
  tenant = tenant;
  cpu = tmpl.cpu;
  mem_mb = want;
  created_at = now;
  claimed_at = now;
  reserved_mem_mb = 0;
}

abbrev pub confirm_created :
    Result Fsjson.Error (Unit {0})
    → Env
    → Option Bool
    → Manager
    → List Sandbox
    → String
    → String
    → Template
    → ℕ
    → Manager × List DecisionLog × Result Error String
confirm_created (ok _) e destroyer m old id tenant tmpl want =
    (m, log_row tenant created_on_demand true, ok id)
confirm_created (err x) e destroyer m old id tenant tmpl want = (
  destroy destroyer (rollback_claim (record m { pool = old }) tenant tmpl.cpu want e.now) id
      created_persist_failed,
  log_row tenant created_persist_failed false,
  err (persist x),
)

unfoldable pub add_created :
    Env
    → Option Bool
    → Manager
    → String
    → String
    → Template
    → String
    → ℕ
    → Manager × List DecisionLog × Result Error String
unfolding new_sandbox
add_created e destroyer m id tenant tmpl task want =
    let (m', r) = persist_locked e.disk (
      account_claim (record m { pool = m.pool ++ new_sandbox id tenant tmpl task want e.now ∷ [] })
        tenant tmpl.cpu want e.now) in
    confirm_created r e destroyer m' m.pool id tenant tmpl want

unfoldable pub commit_pruned :
    Env
    → Option Bool
    → Manager
    → String
    → String
    → Template
    → String
    → ℕ
    → Manager × List DecisionLog × Result Error String
unfolding second_refusal add_created
commit_pruned e destroyer m id tenant tmpl task want =
    elim (second_refusal m (quota_of m tenant) tenant tmpl want) [
      | some note ↦ (destroy destroyer m id note, log_row tenant note false, err quota_exceeded)
      | none ↦ add_created e destroyer m id tenant tmpl task want
    ]

-- After `Factory` built `id`, on the manager as the other calls have left it.
unfoldable pub commit_claim :
    Env
    → Option Bool
    → Manager
    → String
    → String
    → Template
    → String
    → ℕ
    → Manager × List DecisionLog × Result Error String
unfolding commit_pruned destroy
commit_claim e destroyer m id tenant tmpl task want =
    if leb m.capacity (length m.pool)
    then (
      destroy destroyer m id no_capacity_after_race,
      log_row tenant no_capacity_after_race false,
      err no_capacity,
    )
    else commit_pruned e destroyer (prune_hourly m tenant e.now) id tenant tmpl task want

-- `Factory` failed.
unfoldable pub factory_error : Manager → String → Manager × List DecisionLog × Result Error String
factory_error m tenant = (m, log_row tenant factory_failed false, err no_capacity)
