-- ===== src/Policy/Execute.antt =====
-- internal/policy/gateway.go: `Execute` and `SetRuntimeOnce`.
use pvm.Prelude.{
  String, true, false, Option, none, some, text_comparable, Result, ok, err, str_append,
}
use pvm.Audit.Record.{Record, row, execution}
use pvm.Audit.Record
use pvm.Policy.Gateway.{
  Action, ToolRequest, ToolResponse, Rule, Error, decide, sanitize, Hooks, Gateway, audit, allow,
  constrain, approve, deny, other, denied, approval_required, executor_error,
}

abbrev pub Outcome {ℓ} : Type ℓ → Type ℓ
Outcome S = S × Gateway S × ToolResponse × Option Error

abbrev pub no_response : ToolResponse
no_response = record { ok? = false; summary = ""; result = none; reason = "" }

abbrev pub simulated : String → ToolResponse
simulated text = record no_response { ok? = true; summary = text }

-- The branch `ActionApprove` once a ticket is claimed.
abbrev pub finish_approved {ℓ} :
    {S : Type ℓ}
    → (String → String)
    → Gateway S
    → ToolRequest
    → S × Result String ToolResponse
    → Outcome S
finish_approved redact g req (s, ok resp) = (s, g, sanitize redact resp, none)
finish_approved redact g req (s, err text) = (
  s,
  audit redact g req Record.deny (str_append "executor error (approved): " text),
  no_response,
  some (executor_error text),
)

abbrev pub call_approved {ℓ} :
    {S : Type ℓ}
    → (String → String)
    → Gateway S
    → ToolRequest
    → String
    → Option (ToolRequest → S → S × Result String ToolResponse)
    → S
    → Outcome S
call_approved redact g req ticket none s = (
  s,
  g,
  simulated
      (str_append req.name (str_append ": simulated (no executor), unlocked by ticket " ticket)),
  none,
)
call_approved redact g req ticket (some run) s = finish_approved redact g req (run req s)

abbrev pub notify_approved {ℓ} : {S : Type ℓ} → Option (String → S → S) → String → S → S
notify_approved none ticket s = s
notify_approved (some hook) ticket s = hook ticket s

unfoldable pub unlocked {ℓ} :
    {S : Type ℓ} → (String → String) → Gateway S → ToolRequest → String → S → Outcome S
unfolding audit sanitize
unlocked redact g req ticket s =
    call_approved redact
      (audit redact g req Record.allow (str_append "unlocked by approved ticket " ticket)) req
      ticket g.hooks.executor (notify_approved g.hooks.on_approved ticket s)

unfoldable pub ask {ℓ} :
    {S : Type ℓ} → (String → String) → Gateway S → ToolRequest → Rule → S → Outcome S
unfolding audit
ask redact g req r s = (
  s,
  audit redact g req Record.approve (str_append "approval required: " r.reason),
  record no_response { reason = "approval required" },
  some approval_required,
)

abbrev pub claimed {ℓ} :
    {S : Type ℓ}
    → (String → String)
    → Gateway S
    → ToolRequest
    → Rule
    → S × Option String
    → Outcome S
claimed redact g req r (s, some ticket) = unlocked redact g req ticket s
claimed redact g req r (s, none) = ask redact g req r s

abbrev pub approval {ℓ} :
    {S : Type ℓ}
    → (String → String)
    → Gateway S
    → ToolRequest
    → Rule
    → Option (ToolRequest → S → S × Option String)
    → S
    → Outcome S
approval redact g req r none s = ask redact g req r s
approval redact g req r (some check) s = claimed redact g req r (check req s)

-- `ActionAllow` and `ActionConstrain`.
abbrev pub finish_run {ℓ} :
    {S : Type ℓ}
    → (String → String)
    → Gateway S
    → ToolRequest
    → Record.Decision
    → String
    → S × Result String ToolResponse
    → Outcome S
finish_run redact g req dec word (s, ok resp) =
    (s, audit redact g req dec (str_append "executed " word), sanitize redact resp, none)
finish_run redact g req dec word (s, err text) = (
  s,
  audit redact g req Record.deny (str_append "executor error: " text),
  no_response,
  some (executor_error text),
)

unfoldable pub run {ℓ} :
    {S : Type ℓ}
    → (String → String)
    → Gateway S
    → ToolRequest
    → Record.Decision
    → String
    → Option (ToolRequest → S → S × Result String ToolResponse)
    → S
    → Outcome S
unfolding audit sanitize
run redact g req dec word none s = (
  s,
  audit redact g req dec (str_append "dry-run " word),
  simulated (str_append req.name ": simulated (no executor)"),
  none,
)
run redact g req dec word (some call) s = finish_run redact g req dec word (call req s)

unfoldable pub act_on {ℓ} :
    {S : Type ℓ} → (String → String) → Gateway S → ToolRequest → Rule → Action → S → Outcome S
unfolding unlocked ask run
act_on redact g req r deny s = (
  s,
  audit redact g req Record.deny (str_append "denied by rule: " r.reason),
  record no_response { reason = str_append "denied: " r.reason },
  some denied,
)
act_on redact g req r approve s = approval redact g req r g.hooks.approval_check s
act_on redact g req r allow s = run redact g req Record.allow "allow" g.hooks.executor s
act_on redact g req r constrain s = run redact g req Record.constrain "constrain" g.hooks.executor s
act_on redact g req r (other text) s = (s, g, no_response, some denied)

unfoldable pub execute {ℓ} :
    {S : Type ℓ} → (String → String) → Gateway S → ToolRequest → S → Outcome S
unfolding decide act_on
execute redact g req s = let (act, r) = decide g.rules req in act_on redact g req r act s

-- `SetRuntimeOnce` fills the fields that are still nil.
abbrev or_else {ℓ} : {A : Type ℓ} → Option A → Option A → Option A
or_else none new = new
or_else (some old) new = some old

unfoldable pub set_runtime_once {ℓ} : {S : Type ℓ} → Gateway S → Hooks S → Gateway S
set_runtime_once g new = record g {
  hooks = record {
    executor = or_else g.hooks.executor new.executor;
    approval_check = or_else g.hooks.approval_check new.approval_check;
    on_approved = or_else g.hooks.on_approved new.on_approved;
  };
}
