-- ===== src/Approval/Ticket.antt =====
-- internal/approval/manager.go: tickets, errors and the manager's state.
-- A `time.Time` or `time.Duration` is a number of nanoseconds, and 0 is the zero time.
use pvm.Prelude.{
  ℕ, ◌*◌, String, Bool, true, false, Option, none, some, List, [], ◌∷◌, ◌++◌, map, ◌==◌,
  text_comparable, nat_comparable, if◌then◌else◌, Result, ok, err, ◌≡◌, refl, arith,
}
use pvm.Prelude.Dict.{Dict}
use pvm.Json.{Json}
use pvm.Fsjson
use pvm.Fsjson.{Disk}
use pvm.Audit.Record.{Record}

pub data State : Type 0 where
  pending approved rejected expired : State

abbrev pub is_pending : State → Bool
is_pending pending = true
is_pending _ = false

abbrev pub is_approved : State → Bool
is_approved approved = true
is_approved _ = false

pub record Ticket : Type 0 where
  pub id : String
  pub task_id : String
  pub target : String
  pub tool : String
  pub params : Json
  pub evidence : String
  pub why : String
  pub rollback : String
  pub created_at : ℕ
  pub deadline : ℕ
  pub state : State
  pub decided_by : String
  pub decided_at : ℕ
  pub consumed : Bool
  pub edited_by : String
  pub edited_at : Option ℕ
  pub created_by : String
  pub created_by_key_fp : String

pub data Error : Type 0 where
  invalid_deadline not_found already_decided already_pending ticket_expired no_random : Error
  persist : Fsjson.Error → Error

-- `ledger` is the list of the rows handed to the audit ledger, `none` without one; whether it took
-- them is only logged. `file` is the store on disk and `posted` what went to the webhook.
pub record Manager : Type 0 where
  pub tickets : Dict String Ticket
  pub ledger : Option (List Record)
  pub persist_path : String
  pub webhook_url : String
  pub file : List Ticket
  pub posted : List (String × Ticket)

-- What a call reads from outside: the clock, once and again, and what the disk does.
pub record Env : Type 0 where
  pub now : ℕ
  pub later : ℕ
  pub disk : Disk

abbrev pub minute : ℕ
minute = 60 * 1000000000

abbrev pub hour : ℕ
hour = 60 * minute

abbrev pub values : Dict String Ticket → List Ticket
values = map (λ e. e.1)

-- The store without a path is not on disk, and writing it always succeeds.
unfoldable pub persist_locked : Disk → Manager → Manager × Result Fsjson.Error (Unit {0})
persist_locked d m =
    if m.persist_path == ""
    then (m, ok tt)
    else (let (file, r) = Fsjson.write d m.file (values m.tickets) in (record m { file = file }, r))

unfoldable pub notify : String → Ticket → Manager → Manager
notify event t m =
    if m.webhook_url == "" then m else record m { posted = m.posted ++ (event, t) ∷ [] }

add_row : Record → Option (List Record) → Option (List Record)
add_row r none = none
add_row r (some rows) = some (rows ++ r ∷ [])

unfoldable pub audit_row : Record → Manager → Manager
unfolding add_row
audit_row r m = record m { ledger = add_row r m.ledger }

-- The webhook first, then the audit row.
unfoldable pub announce : Record → String → Ticket → Manager → Manager
unfolding audit_row notify
announce r event t m = audit_row r (notify event t m)

-- What follows a write of the store: with an error the call returns at once.
unfoldable pub finish {ℓ} :
    {A : Type ℓ}
    → Result Fsjson.Error (Unit {0})
    → (Manager → Manager)
    → Manager
    → A
    → Manager × Result Error A
finish (ok _) f m a = (f m, ok a)
finish (err e) f m a = (m, err (persist e))

-- Saving, notifying and auditing leave the tickets alone.
pub tickets-persist_locked : (d : Disk) (m : Manager) → (persist_locked d m).0.tickets ≡ m.tickets
unfolding persist_locked
tickets-persist_locked d m = ground arith

pub tickets-notify :
    (event : String) (t : Ticket) (m : Manager) → (notify event t m).tickets ≡ m.tickets
unfolding notify
tickets-notify event t m = ground arith

pub tickets-audit_row : (r : Record) (m : Manager) → (audit_row r m).tickets ≡ m.tickets
unfolding audit_row
tickets-audit_row r m = refl

pub tickets-finish {ℓ} :
    {A : Type ℓ} (r : Result Fsjson.Error (Unit {0})) (row : Record) (event : String) (t : Ticket)
    (m : Manager) (a : A)
    → (finish {ℓ} r (announce row event t) m a).0.tickets ≡ m.tickets
unfolding finish announce
tickets-finish (ok _) row event t m a = ground arith
tickets-finish (err e) row event t m a = refl

-- A write of the store that reports success has put the tickets on disk.
pub persist_locked-file :
    (d : Disk) (m : Manager)
    → (m.persist_path == "") ≡ false
    → (persist_locked d m).1 ≡ ok tt
    → (persist_locked d m).0.file ≡ values m.tickets
unfolding persist_locked
persist_locked-file d m p h =
    rw (p, persist_locked)
      (Fsjson.write-ok d m.file (values m.tickets) (rw (p, persist_locked) at h))
