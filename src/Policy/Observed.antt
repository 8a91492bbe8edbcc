-- ===== src/Policy/Observed.antt =====
-- `Execute` of internal/policy/gateway.go: what the agent and the ledger get to see.
use pvm.Prelude.{String, Option, none, some, All}
use pvm.Json.{Fields}
use pvm.Audit.Record.{Record}
use pvm.Audit.Record
use pvm.Audit.Clean.{IsClean, HasClean}
use pvm.Policy.Gateway.{Gateway}
use pvm.Policy.Execute.{Outcome}

-- What the agent and the ledger see: no key with a denied word at any depth, and masked texts.
abbrev pub IsCleanResult : (String → Type 0) → Option Fields → Type 0
IsCleanResult Q none = Unit
IsCleanResult Q (some fs) = HasClean Q fs

abbrev pub IsCleanRow : (String → Type 0) → Record → Type 0
IsCleanRow Q r = IsClean Q r.params × Q r.reason

abbrev pub IsCleanOutcome {ℓ} : {S : Type ℓ} → (String → Type 0) → Outcome S → Type 0
IsCleanOutcome Q (s, g, resp, e) = All (IsCleanRow Q) g.rows × IsCleanResult Q resp.result
