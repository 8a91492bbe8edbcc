-- ===== src/Policy/Gateway.antt =====
-- internal/policy/gateway.go: the gateway, `NewGateway`, `Decide`, `sanitize` and `audit`. The hooks act on
-- the state `S` of the world outside; `RedactSecrets` is an argument, as in Audit/Redact.
use pvm.Prelude.{
  String, Bool, false, ◌&&◌, ◌||◌, Option, none, some, List, [], ◌∷◌, ◌++◌, ◌==◌, text_comparable,
  if◌then◌else◌, Result, str_append,
}
use pvm.Json.{obj, Fields}
use pvm.Audit.Record.{Record, row, execution}
use pvm.Audit.Record
use pvm.Audit.Redact.{scrub_value, scrub_fields}

-- A verdict; `other` is any text that the gateway does not know.
pub data Action : Type 0 where
  allow constrain approve deny : Action
  other : String → Action

pub record ToolRequest : Type 0 where
  pub name : String
  pub args : Fields
  pub effect : String

pub record ToolResponse : Type 0 where
  pub ok? : Bool
  pub summary : String
  pub result : Option Fields
  pub reason : String

pub record Rule : Type 0 where
  pub name : String
  pub action : Action
  pub effect : String
  pub reason : String

pub data Error : Type 0 where
  denied approval_required : Error
  executor_error : String → Error

abbrev has_catch_all : List Rule → Bool
has_catch_all [] = false
has_catch_all (r ∷ rs) = let rest = has_catch_all rs in r.name == "*" || rest

unfoldable pub new_gateway : List Rule → List Rule
new_gateway rules =
    if has_catch_all rules
    then rules
    else rules
      ++ record { name = "*"; action = deny; effect = ""; reason = "no matching allow rule" } ∷ []

-- The name of the rule fits, and a rule with an effect is for that effect only.
unfoldable pub matches : ToolRequest → Rule → Bool
matches req r = (r.name == req.name || r.name == "*") && (r.effect == "" || r.effect == req.effect)

unfoldable pub decide : List Rule → ToolRequest → Action × Rule
unfolding matches
decide [] req = (deny, record { name = "*"; action = deny; effect = ""; reason = "" })
decide (r ∷ rs) req = let rest = decide rs req in if matches req r then (r.action, r) else rest

abbrev pub scrub_result : (String → String) → Option Fields → Option Fields
scrub_result redact none = none
scrub_result redact (some fs) = some (scrub_fields redact fs)

unfoldable pub sanitize : (String → String) → ToolResponse → ToolResponse
sanitize redact r = record r {
  summary = redact r.summary;
  reason = redact r.reason;
  result = scrub_result redact r.result;
}

-- The hook fields of the gateway.
pub record Hooks {ℓ} (S : Type ℓ) : Type ℓ where
  pub executor : Option (ToolRequest → S → S × Result String ToolResponse)
  pub approval_check : Option (ToolRequest → S → S × Option String)
  pub on_approved : Option (String → S → S)

-- The gateway's rules and hooks, whether it has a ledger, and what it wrote there, the newest first.
pub record Gateway {ℓ} (S : Type ℓ) : Type ℓ where
  pub rules : List Rule
  pub ledger? : Bool
  pub rows : List Record
  pub hooks : Hooks S

unfoldable pub audit {ℓ} :
    {S : Type ℓ}
    → (String → String)
    → Gateway S
    → ToolRequest
    → Record.Decision
    → String
    → Gateway S
audit redact g req dec reason =
    if g.ledger?
    then record g {
      rows =
          row execution "agent" (str_append "tool:" req.name) (scrub_value redact (obj req.args))
            dec (redact reason)
          ∷ g.rows;
    }
    else g
