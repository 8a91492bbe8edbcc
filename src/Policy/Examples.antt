-- ===== src/Policy/Examples.antt =====
-- The theorems about the gateway at three rules, and tests.
use pvm.Prelude.{
  ℕ, suc, String, ◌≡◌, refl, true, Option, none, some, List, [], ◌∷◌, nat_comparable,
  text_comparable, ok,
}
use pvm.Json.{str, obj, end, field}
use pvm.Audit.Record.{Record}
use pvm.Audit.Record
use pvm.Audit.Redact.{is_safe_summary_key, contains, scrub_value, redact_record}
use pvm.Audit.Clean.{IsClean, scrub_value-IsClean, IsRedacted, redact_record-IsRedacted}
use pvm.Policy.Gateway.{
  allow, approve, deny, ToolRequest, ToolResponse, Rule, approval_required, Hooks, Gateway,
  new_gateway, matches, decide, audit, sanitize,
}
use pvm.Policy.Execute.{unlocked, ask, act_on, execute}
use pvm.Prelude.{false, ◌==◌, text_comparable, Result, Bool-cases, inl, inr, eq_iff}
use pvm.Json.{Json}
use pvm.Prelude.Dict.{get, find}
use pvm.Approval.Ticket.{approved, Ticket, Manager, Env, persist_locked}
use pvm.Approval.Manager.{same_params}
use pvm.Approval.Claims.{claim_for, claimable, burn}
use pvm.Approval.OneShot.{IsSound}
use pvm.Policy.Approvals.{IsUnlocked, wired, execute-IsUnlocked}
use pvm.Policy.Rules.{IsDecided, decide-IsDecided}
use pvm.Policy.Verdicts.{Touches, execute-Touches}

-- Every text that this one returns is the placeholder.
abbrev mask : String → String
mask s = "[REDACTED]"

abbrev IsMasked : String → Type 0
IsMasked s = s ≡ "[REDACTED]"

masked : (s : String) → IsMasked (mask s)
masked s = refl

abbrev rules : List Rule
rules =
    record { name = "read_file"; action = allow; effect = "read"; reason = "" }
    ∷ record { name = "deploy"; action = approve; effect = ""; reason = "production" }
    ∷ []

abbrev deploy : ToolRequest
deploy = record {
  name = "deploy";
  args = field "api_KEY" (str "x") (field "env" (str "prod") end);
  effect = "prod";
}

abbrev pay : ToolRequest
pay = record { name = "read_file"; args = end; effect = "pay" }

abbrev leaky : ToolResponse
leaky = record {
  ok? = true;
  summary = "token=abcd";
  result = some (field "Auth-Token" (str "x") (field "out" (str "y") end));
  reason = "";
}

-- The world counts the calls of the executor, and holds the one ticket that there is.
abbrev World : Type 0
World = ℕ × Option String

abbrev take_ticket : World → World × Option String
take_ticket (n, ticket) = ((n, none), ticket)

abbrev hooks : Hooks World
hooks = record {
  executor = some (λ req w. ((suc w.0, w.1), ok leaky));
  approval_check = some (λ req w. take_ticket w);
  on_approved = none;
}

abbrev gateway : Gateway World
gateway = record { rules = new_gateway rules; ledger? = true; rows = []; hooks = hooks }

decide-IsDecided_example : IsDecided pay (new_gateway rules) (decide (new_gateway rules) pay).0
decide-IsDecided_example = decide-IsDecided (new_gateway rules) pay

test_pay : (decide (new_gateway rules) pay).0 ≡ deny
unfolding decide new_gateway matches
test_pay = refl

execute-Touches_example :
    Touches gateway deploy
      (0, some "b")
      (decide gateway.rules deploy).0
      (execute mask gateway deploy (0, some "b")).0
execute-Touches_example = execute-Touches gateway deploy mask (0, some "b")

abbrev once : World
once = (execute mask gateway deploy (0, some "b")).0

-- The ticket unlocks one call: the second one waits for approval.
test_once : (once ≡ (1, none)) × ((execute mask gateway deploy once).3 ≡ some approval_required)
unfolding execute decide new_gateway matches act_on unlocked ask audit sanitize scrub_value
test_once = (refl, refl)

test_scrub :
    (execute mask gateway deploy (0, some "b")).2.result ≡ some (field "out" (str "[REDACTED]") end)
unfolding execute decide new_gateway matches act_on unlocked ask audit sanitize scrub_value
    is_safe_summary_key contains
test_scrub = refl

scrub_value-IsClean_example : IsClean IsMasked (scrub_value mask (obj deploy.args))
scrub_value-IsClean_example = scrub_value-IsClean IsMasked mask masked (obj deploy.args)

abbrev shown : Record
shown = record {
  seq = 1;
  at = 2;
  task = "t";
  tenant = "";
  phase = Record.execution;
  subject = "agent";
  action = "tool:deploy";
  params = obj deploy.args;
  decision = Record.allow;
  reason = "token=abcd";
}

redact_record-IsRedacted_example : IsRedacted IsMasked shown (redact_record true mask shown)
redact_record-IsRedacted_example = redact_record-IsRedacted IsMasked mask shown masked

-- A store with one ticket, approved for the deployment, and a world that counts the calls.
abbrev granted : Ticket
granted = record {
  id = "b";
  task_id = "t1";
  target = "prod";
  tool = "deploy";
  params = obj deploy.args;
  evidence = "";
  why = "";
  rollback = "";
  created_at = 1;
  deadline = 8;
  state = approved;
  decided_by = "ann";
  decided_at = 3;
  consumed = false;
  edited_by = "";
  edited_at = none;
  created_by = "";
  created_by_key_fp = "";
}

abbrev tickets : Manager
tickets = record {
  tickets = ("b", granted) ∷ [];
  ledger = none;
  persist_path = "";
  webhook_url = "";
  file = [];
  posted = [];
}

tickets-IsSound : IsSound tickets
unfolding get
tickets-IsSound = record {
  distinct = (refl, tt);
  keyed = λ k. elim (Bool-cases ("b" == k)) [ inl b ↦ rw b ((eq_iff "b" k).0 b) | inr n ↦ rw n tt ];
}

abbrev text_of : Json → Option String
text_of (obj fs) = some "args"
text_of _ = none

abbrev at_seven : Env
at_seven = record {
  now = 7;
  later = 8;
  disk = record {
    create = true;
    encode = true;
    sync = true;
    close = true;
    rename = true;
    open_dir = true;
    sync_dir = true;
    close_dir = true;
  };
}

abbrev counting : ToolRequest → ℕ → ℕ × Result String ToolResponse
counting req n = (suc n, ok leaky)

abbrev bare : Gateway (Manager × ℕ)
bare = record {
  rules = new_gateway rules;
  ledger? = false;
  rows = [];
  hooks = record { executor = none; approval_check = none; on_approved = none };
}

deploy-approve : (decide bare.rules deploy).0 ≡ approve
unfolding decide new_gateway matches
deploy-approve = refl

execute-IsUnlocked_example :
    IsUnlocked text_of "t1" deploy tickets 0
      (execute mask
        (record bare { hooks = wired text_of at_seven "t1" counting })
        deploy
        (tickets, 0)).0
execute-IsUnlocked_example =
    execute-IsUnlocked text_of at_seven "t1" counting mask bare deploy tickets 0 tickets-IsSound
      deploy-approve

-- The call was made.
test_counted :
    (execute mask
      (record bare { hooks = wired text_of at_seven "t1" counting })
      deploy
      (tickets, 0)).0.1
    ≡ 1
unfolding execute decide new_gateway matches act_on unlocked ask audit sanitize scrub_value wired
    claim_for claimable burn persist_locked find same_params get
test_counted = refl
