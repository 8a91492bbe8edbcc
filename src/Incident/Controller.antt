-- ===== src/Incident/Controller.antt =====
-- internal/incident/controller.go: `Classify`, `Handle` and what it applies, `MoveToQuarantine`. The hooks act
-- on the state `S` of the world outside; `show` is `Error()`.
use pvm.Prelude.{
  ℕ, ◌+◌, String, Bool, Option, none, some, List, [], ◌∷◌, ◌++◌, leb, text_comparable,
  nat_comparable, if◌then◌else◌, Result, ok, err, str_append,
}
use pvm.Prelude.Dict.{Dict, get, put}
use pvm.Json.{null, obj, field, str, end}
use pvm.Audit.Record.{Record, row, execution}
use pvm.Audit.Record
use pvm.Identity.Broker.{Broker, Codec, Env}
use pvm.Identity.Broker
use pvm.Identity.Lease.{revoke_all_for_task}
use pvm.State.Fsm.{ContainerState, controller, transition}
use pvm.State.Fsm

-- `other_severity` is any text that `Classify` does not know.
pub data Severity : Type 0 where
  low medium high critical : Severity
  other_severity : String → Severity

pub record Anomaly : Type 0 where
  pub task_id : String
  pub severity : Severity
  pub signal : String
  pub detail : String

pub data Action : Type 0 where
  nothing block revoke pause terminate quarantine : Action

pub data Error : Type 0 where
  hook_failed : String → Error
  not_durable : Broker.Error → Error

abbrev pub Hook {ℓ} : Type ℓ → Type ℓ
Hook S = Option (String → S → S × Result String (Unit {0}))

pub record Hooks {ℓ} (S : Type ℓ) : Type ℓ where
  pub block_network : Hook S
  pub revoke_identities : Hook S
  pub freeze_runtime : Hook S
  pub terminate_task : Hook S
  pub preserve : Hook S

-- The controller with its broker, and the world that the hooks act on. `ledger` is what `Append` took,
-- `none` without one.
pub record Site {ℓ} (S : Type ℓ) : Type ℓ where
  pub handled : Dict String ℕ
  pub ledger : Option (List Record)
  pub broker : Option Broker
  pub world : S

unfoldable pub classify : Severity → Action
classify critical = terminate
classify high = quarantine
classify medium = pause
classify low = block
classify (other_severity s) = nothing

abbrev escalated : Action → Action
escalated block = quarantine
escalated pause = quarantine
escalated a = a

-- From the third incident of a task on, a block or a pause is a quarantine.
unfoldable pub escalate : ℕ → Action → Action
escalate count a = if leb 3 count then escalated a else a

abbrev pub count_of : Option ℕ → ℕ
count_of none = 0
count_of (some n) = n

abbrev severity_text : Severity → String
severity_text low = "low"
severity_text medium = "medium"
severity_text high = "high"
severity_text critical = "critical"
severity_text (other_severity s) = s

abbrev action_text : Action → String
action_text nothing = "none"
action_text block = "block"
action_text revoke = "revoke"
action_text pause = "pause"
action_text terminate = "terminate"
action_text quarantine = "quarantine"

abbrev added : Bool → Record → Option (List Record) → Option (List Record)
added takes r none = none
added takes r (some rows) = if takes then some (rows ++ r ∷ []) else some rows

unfoldable pub incident_row : Anomaly → Action → String → Record
incident_row a act reason =
    row execution a.task_id (str_append "incident:" (action_text act))
      (obj (
        field "signal" (str a.signal)
          (field "severity" (str (severity_text a.severity)) (field "detail" (str a.detail) end))))
      Record.Decision.block reason

abbrev pub task_row : String → String → Record.Decision → Record
task_row task action dec = row execution task action null dec "incident response"

abbrev keep_first : Result Error (Unit {0}) → Error → Result Error (Unit {0})
keep_first (ok _) x = err x
keep_first (err x) _ = err x

abbrev failure_row : String → String → String → Record
failure_row task stage text =
    row execution task (str_append "incident:" stage) null Record.Decision.deny
      (str_append stage (str_append " hook failed: " text))

abbrev pub Stage {ℓ} : Type ℓ → Type ℓ
Stage S = Site S × Result Error (Unit {0})

module _ {ℓ} {S : Type ℓ} (show : Error → String) (c : Codec) (e : Env) where
  -- A row that the ledger does not take is lost.
  unfoldable pub audit_raw : Record → Site S → Site S
  audit_raw r s = record s { ledger = added e.append r s.ledger }

  abbrev pub hooked : Site S → S × Result String (Unit {0}) → Site S × Result Error (Unit {0})
  hooked s (w, ok _) = (record s { world = w }, ok tt)
  hooked s (w, err x) = (record s { world = w }, err (hook_failed x))

  -- A hook that is not wired does nothing.
  unfoldable pub run_hook : Hook S → String → Site S → Site S × Result Error (Unit {0})
  run_hook none task s = (s, ok tt)
  run_hook (some f) task s = hooked s (f task s.world)

  abbrev pub audited : Record → Site S × Result Error (Unit {0}) → Site S × Result Error (Unit {0})
  audited r (s, ok _) = (audit_raw r s, ok tt)
  audited r (s, err x) = (s, err x)

  unfoldable pub apply_block : Hooks S → String → Site S → Site S × Result Error (Unit {0})
  unfolding run_hook audit_raw
  apply_block h task s =
      audited (task_row task "block" Record.Decision.block) (run_hook h.block_network task s)

  unfoldable pub apply_pause : Hooks S → String → Site S → Site S × Result Error (Unit {0})
  unfolding run_hook audit_raw
  apply_pause h task s =
      audited (task_row task "pause" Record.Decision.constrain) (run_hook h.freeze_runtime task s)

  unfoldable pub apply_preserve : Hooks S → String → Site S → Site S × Result Error (Unit {0})
  unfolding run_hook
  apply_preserve h task s = run_hook h.preserve task s

  abbrev pub bulk_revoked :
      Site S → Broker × (ℕ × Result Broker.Error (Unit {0})) → Site S × Result Error (Unit {0})
  bulk_revoked s (b, (n, ok _)) = (record s { broker = some b }, ok tt)
  bulk_revoked s (b, (n, err x)) = (record s { broker = some b }, err (not_durable x))

  unfoldable pub revoke_tokens : String → Option Broker → Site S → Site S × Result Error (Unit {0})
  unfolding revoke_all_for_task
  revoke_tokens task none s = (s, ok tt)
  revoke_tokens task (some b) s = bulk_revoked s (revoke_all_for_task c e b task)

  -- The hook, unless the broker could not save the revocation.
  abbrev pub revoke_outside :
      Hooks S → String → Site S × Result Error (Unit {0}) → Site S × Result Error (Unit {0})
  revoke_outside h task (s, err x) = (s, err x)
  revoke_outside h task (s, ok _) =
      audited (task_row task "revoke" Record.Decision.revoke) (run_hook h.revoke_identities task s)

  unfoldable pub apply_revoke : Hooks S → String → Site S → Site S × Result Error (Unit {0})
  unfolding revoke_tokens run_hook audit_raw
  apply_revoke h task s = revoke_outside h task (revoke_tokens task s.broker s)

  -- `recordFailure`: the first error is kept, and the response goes on.
  unfoldable pub record_failure :
      String
      → String
      → Result Error (Unit {0})
      → Site S × Result Error (Unit {0})
      → Site S × Result Error (Unit {0})
  unfolding audit_raw
  record_failure task stage first (s, ok _) = (s, first)
  record_failure task stage first (s, err x) =
      (audit_raw (failure_row task stage (show x)) s, keep_first first x)

  abbrev pub then_revoke : Hooks S → String → Stage S → Stage S
  then_revoke h task (s, first) = record_failure task "revoke" first (apply_revoke h task s)

  abbrev pub then_block : Hooks S → String → Stage S → Stage S
  then_block h task (s, first) = record_failure task "block" first (apply_block h task s)

  abbrev pub then_pause : Hooks S → String → Stage S → Stage S
  then_pause h task (s, first) = record_failure task "pause" first (apply_pause h task s)

  abbrev pub then_preserve : Hooks S → String → Stage S → Stage S
  then_preserve h task (s, first) = record_failure task "preserve" first (apply_preserve h task s)

  abbrev pub contain : Hooks S → String → Stage S → Stage S
  contain h task r =
      then_preserve h task (then_pause h task (then_block h task (then_revoke h task r)))

  unfoldable pub respond : Hooks S → String → Action → Site S → Stage S
  unfolding record_failure apply_revoke apply_block apply_pause apply_preserve
  respond h task quarantine s = contain h task (s, ok tt)
  respond h task terminate s = contain h task (s, ok tt)
  respond h task pause s = then_preserve h task (then_pause h task (s, ok tt))
  respond h task block s = then_block h task (s, ok tt)
  respond h task revoke s = then_revoke h task (s, ok tt)
  respond h task nothing s = (s, ok tt)

  -- An error of `Terminate` is the one that the caller gets.
  abbrev pub terminated : Anomaly → Result Error (Unit {0}) → Stage S → Stage S
  terminated a first (s, ok _) = (s, first)
  terminated a first (s, err x) =
      (audit_raw (incident_row a terminate (str_append "terminate failed: " (show x))) s, err x)

  unfoldable pub end_task : Hooks S → Anomaly → Action → Stage S → Stage S
  unfolding run_hook audit_raw incident_row
  end_task h a terminate (s, first) = terminated a first (run_hook h.terminate_task a.task_id s)
  end_task h a act (s, first) = (s, first)

  abbrev pub counted : Anomaly → Site S → Site S
  counted a s = record s {
    handled = put s.handled a.task_id (count_of (get s.handled a.task_id) + 1);
  }

  -- The action for the anomaly, with this incident counted.
  unfoldable pub chosen : Anomaly → Site S → Action
  unfolding classify escalate
  chosen a s = escalate (count_of (get s.handled a.task_id) + 1) (classify a.severity)

  unfoldable pub handle : Hooks S → Anomaly → Site S → Site S × (Action × Result Error (Unit {0}))
  unfolding chosen respond end_task audit_raw incident_row
  handle h a s =
      let act = chosen a s in
      let (s', r) =
        end_task h a act
          (respond h a.task_id act (audit_raw (incident_row a act "classified") (counted a s))) in
      (s', (act, r))

-- `none` is a nil state.
unfoldable pub move_to_quarantine :
    Option ContainerState → String → ℕ → ℕ → Result (Option Fsm.Error) ContainerState
unfolding transition
move_to_quarantine none reason now later = err none
move_to_quarantine (some s) reason now later =
    moved (transition s Fsm.quarantined controller (str_append "incident: " reason) now later)
  where
    moved : Result Fsm.Error ContainerState → Result (Option Fsm.Error) ContainerState
    moved (ok t) = ok t
    moved (err x) = err (some x)
