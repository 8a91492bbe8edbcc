-- ===== src/Approval/Manager.antt =====
-- internal/approval/manager.go: `Create`, `Decide`, `Get`, `Pending`, `IsApproved`.
use pvm.Prelude.{
  ℕ, ◌+◌, ◌*◌, String, Bool, true, false, not, ◌&&◌, ◌||◌, Option, none, some, List, [], ◌∷◌, ◌==◌,
  text_comparable, nat_comparable, ltb, if◌then◌else◌, Result, ok, err, str_append,
}
use pvm.Prelude.Dict.{Dict, get, put, find, map_values}
use pvm.Json.{Json, str, obj, field, end}
use pvm.Audit.Record.{Record, row, execution, approve, deny}
use pvm.Approval.Ticket.{
  pending, approved, rejected, expired, is_pending, is_approved, Ticket, Error, invalid_deadline,
  not_found, already_decided, already_pending, ticket_expired, no_random, Manager, Env, minute,
  hour, persist_locked, announce, finish,
}

same_text : Option String → Option String → Bool
same_text (some x) (some y) = x == y
same_text _ _ = false

-- The encodings exist, and agree.
unfoldable pub same_params : (Json → Option String) → Json → Json → Bool
unfolding same_text
same_params marshal a b = same_text (marshal a) (marshal b)

-- The defaults of a new ticket, and the window for a deadline that the caller chose.
unfoldable pub open_window : ℕ → Ticket → Result Error Ticket
open_window now t0 =
    if t.deadline == 0
    then ok (record t { deadline = now + 5 * minute; state = pending })
    else if ltb t.deadline now
    then err invalid_deadline
    else if ltb (now + hour) t.deadline
    then err invalid_deadline
    else ok (record t { state = pending })
  where
    t : Ticket
    t = if t0.created_at == 0 then record t0 { created_at = now } else t0

-- An identical ticket that is pending already.
unfoldable pub duplicates : (Json → Option String) → Ticket → Ticket → Bool
unfolding same_params
duplicates marshal t existing =
    existing.task_id == t.task_id
    && existing.tool == t.tool
    && is_pending existing.state
    && same_params marshal existing.params t.params

unfoldable pub register : Env → Manager → Ticket → String → Manager × Result Error String
register e m t0 id =
    let (m', r) = persist_locked e.disk (record m { tickets = put m.tickets id t }) in
    finish r (announce created "create" t) m' id
  where
    t : Ticket
    t = record t0 { id = id }

    created : Record
    created = row execution t.task_id (str_append "approval:create:" t.tool) t.params approve t.why

-- `rand` is what `randID` returns, `none` without a random source.
unfoldable pub admit_ticket :
    (Json → Option String)
    → Env
    → Option String
    → Manager
    → Result Error Ticket
    → Manager × Result Error String
admit_ticket marshal e rand m (err x) = (m, err x)
admit_ticket marshal e rand m (ok t) = elim (find (duplicates marshal t) m.tickets) [
  | some _ ↦ (m, err already_pending)
  | none ↦ elim rand [ none ↦ (m, err no_random) | some id ↦ register e m t id ]
]

unfoldable pub create :
    (Json → Option String) → Env → Option String → Manager → Ticket → Manager × Result Error String
unfolding admit_ticket
create marshal e rand m t = admit_ticket marshal e rand m (open_window e.now t)

unfoldable pub settle :
    Env → Manager → String → Ticket → Bool → String → Manager × Result Error (Unit {0})
settle e m id t0 approved? by =
    let (m', r) = persist_locked e.disk (record m { tickets = put m.tickets id t }) in
    finish r (announce decided "decide" t) m' tt
  where
    t : Ticket
    t = record t0 {
      state = if approved? then approved else rejected;
      decided_by = by;
      decided_at = e.later;
    }

    decided : Record
    decided =
        row execution by (str_append "approval:decide:" t.tool)
          (obj (field "ticket" (str id) (field "target" (str t.target) end)))
          (if approved? then approve else deny) t.why

unfoldable pub decide_found :
    Env → Manager → String → Option Ticket → Bool → String → Manager × Result Error (Unit {0})
unfolding settle
decide_found e m id none approved? by = (m, err not_found)
decide_found e m id (some t) approved? by =
    if not (is_pending t.state)
    then (m, err already_decided)
    else if ltb t.deadline e.now
    then (
      record m { tickets = put m.tickets id (record t { state = expired }) },
      err ticket_expired,
    )
    else settle e m id t approved? by

unfoldable pub decide : Env → Manager → String → Bool → String → Manager × Result Error (Unit {0})
unfolding decide_found
decide e m id approved? by = decide_found e m id (get m.tickets id) approved? by

abbrev or_not_found : Option Ticket → Result Error Ticket
or_not_found none = err not_found
or_not_found (some t) = ok t

unfoldable pub get_ticket : Manager → String → Result Error Ticket
get_ticket m id = or_not_found (get m.tickets id)

-- The tickets that `Pending` looks at, before their deadlines.
unfoldable pub is_listed : String → Ticket → Bool
is_listed task t = is_pending t.state && (task == "" || t.task_id == task)

-- The clock is read once for each ticket looked at.
unfoldable pub expire_listed : String → (String → ℕ) → String → Ticket → Ticket
unfolding is_listed
expire_listed task clock id t =
    if is_listed task t && ltb t.deadline (clock id) then record t { state = expired } else t

unfoldable pub open_tickets : String → (String → ℕ) → Dict String Ticket → List Ticket
unfolding is_listed
open_tickets task clock [] = []
open_tickets task clock ((id, t) ∷ d) =
    let rest = open_tickets task clock d in
    if is_listed task t then (if ltb t.deadline (clock id) then rest else t ∷ rest) else rest

unfoldable pub list_pending : String → (String → ℕ) → Manager → Manager × List Ticket
unfolding expire_listed open_tickets
list_pending task clock m = (
  record m { tickets = map_values (expire_listed task clock) m.tickets },
  open_tickets task clock m.tickets,
)

abbrev is_some {ℓ} : {A : Type ℓ} → Option A → Bool
is_some none = false
is_some (some _) = true

unfoldable pub is_ticket_approved : (Json → Option String) → Manager → String → String → Json → Bool
unfolding same_params
is_ticket_approved marshal m task tool params = is_some (find matches m.tickets)
  where
    matches : Ticket → Bool
    matches t =
        t.task_id == task
        && t.tool == tool
        && is_approved t.state
        && same_params marshal t.params params
