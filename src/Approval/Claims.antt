-- ===== src/Approval/Claims.antt =====
-- internal/approval/store.go: `Edit`, `ApprovedFor`, `ClaimFor`, `MarkConsumed`, `ExpirePending`.
use pvm.Prelude.{
  ℕ, suc, String, Bool, true, false, not, ◌&&◌, Option, none, some, [], ◌∷◌, ◌==◌, text_comparable,
  ltb, if◌then◌else◌, Result, ok, err, str_append,
}
use pvm.Prelude.Dict.{Dict, get, put, find, map_values}
use pvm.Json.{Json}
use pvm.Fsjson
use pvm.Audit.Record.{Record, row, execution, approve}
use pvm.Approval.Ticket.{
  expired, is_pending, is_approved, Ticket, Error, not_found, already_decided, Manager, Env,
  persist_locked, notify, audit_row,
}
use pvm.Approval.Manager.{same_params}

unfoldable pub amend : Env → Ticket → Option Json → String → String → Ticket
amend e t params reason by = record t {
  params = elim params [ none ↦ t.params | some p ↦ p ];
  rollback = if reason == "" then t.rollback else reason;
  edited_by = by;
  edited_at = some e.now;
}

-- The error of the write is dropped.
unfoldable pub edit_found :
    Env
    → Manager
    → String
    → Option Ticket
    → Option Json
    → String
    → String
    → Manager × Result Error Ticket
unfolding amend
edit_found e m id none params reason by = (m, err not_found)
edit_found e m id (some t0) params reason by =
    if not (is_pending t0.state)
    then (m, err already_decided)
    else (notify "edit" t (audit_row edited saved), ok t)
  where
    t : Ticket
    t = amend e t0 params reason by

    saved : Manager
    saved = (persist_locked e.disk (record m { tickets = put m.tickets id t })).0

    edited : Record
    edited =
        row execution by (str_append "approval:edit:" t.tool) t.params approve
          (str_append "ticket edited: " reason)

unfoldable pub edit :
    Env → Manager → String → Option Json → String → String → Manager × Result Error Ticket
unfolding edit_found
edit e m id params reason by = edit_found e m id (get m.tickets id) params reason by

-- An approved ticket for exactly this task, tool and params that was not used.
unfoldable pub claimable : (Json → Option String) → String → String → Json → Ticket → Bool
unfolding same_params
claimable marshal task tool params t =
    t.task_id == task
    && t.tool == tool
    && is_approved t.state
    && not t.consumed
    && same_params marshal t.params params

unfoldable pub approved_for :
    (Json → Option String) → Manager → String → String → Json → Option String
approved_for marshal m task tool params =
    elim (find (claimable marshal task tool params) m.tickets) [
      | none ↦ none
      | some (k, t) ↦ some t.id
    ]

-- With the write refused the claim is undone in memory, and refused.
abbrev pub confirm_claim :
    Result Fsjson.Error (Unit {0}) → Manager → String → Ticket → Manager × Option String
confirm_claim (ok _) m k t = (m, some t.id)
confirm_claim (err x) m k t =
    (record m { tickets = put m.tickets k (record t { consumed = false }) }, none)

unfoldable pub burn : Env → Manager → String → Ticket → Manager × Option String
burn e m k t =
    let (m', r) =
      persist_locked e.disk
        (record m { tickets = put m.tickets k (record t { consumed = true }) }) in
    confirm_claim r m' k t

unfoldable pub claim_for :
    (Json → Option String) → Env → Manager → String → String → Json → Manager × Option String
unfolding burn
claim_for marshal e m task tool params =
    elim (find (claimable marshal task tool params) m.tickets) [
      | none ↦ (m, none)
      | some (k, t) ↦ burn e m k t
    ]

abbrev pub confirm_mark : Result Fsjson.Error (Unit {0}) → Manager → String → Ticket → Manager
confirm_mark (ok _) m id t = m
confirm_mark (err x) m id t = record m { tickets = put m.tickets id t }

unfoldable pub mark_found : Env → Manager → String → Option Ticket → Manager
mark_found e m id none = (persist_locked e.disk m).0
mark_found e m id (some t) =
    if is_approved t.state
    then (let (m', r) =
          persist_locked e.disk
            (record m { tickets = put m.tickets id (record t { consumed = true }) }) in
        confirm_mark r m' id t)
    else (persist_locked e.disk m).0

unfoldable pub mark_consumed : Env → Manager → String → Manager
unfolding mark_found
mark_consumed e m id = mark_found e m id (get m.tickets id)

unfoldable pub is_overdue : (String → ℕ) → String → Ticket → Bool
is_overdue clock id t = is_pending t.state && ltb t.deadline (clock id)

unfoldable pub expire_overdue : (String → ℕ) → String → Ticket → Ticket
unfolding is_overdue
expire_overdue clock id t = if is_overdue clock id t then record t { state = expired } else t

unfoldable pub count_overdue : (String → ℕ) → Dict String Ticket → ℕ
unfolding is_overdue
count_overdue clock [] = 0
count_overdue clock ((id, t) ∷ d) =
    let rest = count_overdue clock d in if is_overdue clock id t then suc rest else rest

-- Only a round that expired something writes the store.
unfoldable pub expire_pending : Env → (String → ℕ) → Manager → Manager × ℕ
unfolding expire_overdue count_overdue
expire_pending e clock m =
    let n = count_overdue clock m.tickets in
    let m' = record m { tickets = map_values (expire_overdue clock) m.tickets } in
    if ltb 0 n then ((persist_locked e.disk m').0, n) else (m', n)
