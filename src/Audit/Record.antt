-- ===== src/Audit/Record.antt =====
-- internal/audit/ledger.go: the row of a ledger and the words that it uses. What `Append` adds to it, the
-- digests and the signature, stands in `Entry` of Audit/Ledger.
use pvm.Prelude.{ℕ, String}
use pvm.Json.{Json}

pub data Phase : Type 0 where
  goal_auth spec_version execution release : Phase

pub data Decision : Type 0 where
  allow constrain approve deny block revoke : Decision

pub record Record : Type 0 where
  pub seq : ℕ
  pub at : ℕ
  pub task : String
  pub tenant : String
  pub phase : Phase
  pub subject : String
  pub action : String
  pub params : Json
  pub decision : Decision
  pub reason : String

-- A row as the callers of `Append` write it: the ledger fills in the other fields.
abbrev pub row : Phase → String → String → Json → Decision → String → Record
row phase subject action params decision reason = record {
  seq = 0;
  at = 0;
  task = "";
  tenant = "";
  phase = phase;
  subject = subject;
  action = action;
  params = params;
  decision = decision;
  reason = reason;
}
