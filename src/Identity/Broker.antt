-- ===== src/Identity/Broker.antt =====
-- internal/identity/broker.go: tokens, the broker's state, `Mint`, `Validate`, `RequireScope`, `Revoke`,
-- `RevokeAllForTask`; and `persistRevLocked` of internal/identity/persist.go, which the last two call.
-- A time is a number of nanoseconds; a ttl of 0 is any that is not positive. A Go set is a `Dict`.
use pvm.Prelude.{
  ℕ, ◌+◌, ◌*◌, String, Bool, true, false, ◌||◌, Option, none, some, List, [], ◌∷◌, ◌++◌, map, ◌==◌,
  text_comparable, nat_comparable, if◌then◌else◌, Result, ok, err, str_append,
}
use pvm.Prelude.Dict.{Dict, get, put, del}
use pvm.Json.{Items, str, arr, obj, nil, cons, field, end}
use pvm.Fsjson
use pvm.Fsjson.{Disk}
use pvm.Audit.Record.{Record, row, goal_auth, allow}

pub record Token : Type 0 where
  pub id : String
  pub caller : String
  pub tenant : String
  pub task : String
  pub scope : List String
  pub exp : ℕ

abbrev pub Set : Type 0
Set = Dict String (Unit {0})

abbrev pub is_some {ℓ} : {A : Type ℓ} → Option A → Bool
is_some none = false
is_some (some _) = true

abbrev pub has : Set → String → Bool
has s k = is_some (get s k)

abbrev pub members : Set → List String
members = map (λ e. e.0)

-- `revocationFile`, less `SavedAt`.
pub record RevocationFile : Type 0 where
  pub revoked : List String
  pub tasks : List String

pub data Content : Type 0 where
  absent blank corrupt : Content
  stored : RevocationFile → Content

-- `ledger` is what `Append` took, `none` without one; `file` is what is on disk at `rev_path`. The
-- signing key is in `Codec`.
pub record Broker : Type 0 where
  pub revoked : Set
  pub active_by_task : Dict String Set
  pub task_by_token : Dict String String
  pub ledger : Option (List Record)
  pub default_ttl : ℕ
  pub revoked_tasks : Set
  pub rev_path : String
  pub file : Content

pub data Error : Type 0 where
  token_revoked token_expired signature scope_missing no_random unencodable mint_audit : Error
  persist : Fsjson.Error → Error

-- HMAC under the broker's key, base64, encoding/json and fmt. A byte string is a text.
pub record Codec : Type 0 where
  pub sign : String → String
  pub encode : String → String
  pub decode : String → Option String
  pub marshal : Token → Option String
  pub unmarshal : String → Option Token
  pub ttl_text : ℕ → String
  pub count_text : ℕ → String

-- What a call reads from outside: the clock, whether the ledger takes a row, the disk.
pub record Env : Type 0 where
  pub now : ℕ
  pub append : Bool
  pub disk : Disk

-- A ttl of 0 stands for every default ttl that is not positive.
unfoldable pub new_broker : Option (List Record) → ℕ → Content → Broker
new_broker ledger ttl file = record {
  revoked = [];
  active_by_task = [];
  task_by_token = [];
  ledger = ledger;
  default_ttl = if ttl == 0 then 15 * 60 * 1000000000 else ttl;
  revoked_tasks = [];
  rev_path = "";
  file = file;
}

add_row : Record → Option (List Record) → Option (List Record)
add_row r none = none
add_row r (some rows) = some (rows ++ r ∷ [])

-- The row, when the ledger takes it.
unfoldable pub append_row : Env → Record → Broker → Broker
unfolding add_row
append_row e r b = if e.append then record b { ledger = add_row r b.ledger } else b

abbrev pub image : Broker → Content
image b = stored (record { revoked = members b.revoked; tasks = members b.revoked_tasks })

abbrev pub saved :
    Broker → Content × Result Fsjson.Error (Unit {0}) → Broker × Result Error (Unit {0})
saved b (file, ok _) = (record b { file = file }, ok tt)
saved b (file, err x) = (record b { file = file }, err (persist x))

unfoldable pub persist_locked : Disk → Broker → Broker × Result Error (Unit {0})
persist_locked d b =
    if b.rev_path == "" then (b, ok tt) else saved b (Fsjson.write d b.file (image b))

abbrev pub or_empty : Option Set → Set
or_empty none = []
or_empty (some ids) = ids

-- The set of a task's live tokens; a missing one is empty.
abbrev pub live : Dict String Set → String → Set
live a task = or_empty (get a task)

unfoldable pub link : Broker → String → String → Broker
link b task id = record b {
  active_by_task = put b.active_by_task task (put (live b.active_by_task task) id tt);
  task_by_token = put b.task_by_token id task;
}

abbrev pub dropped : Dict String Set → String → String → Option Set → Dict String Set
dropped a task id none = a
dropped a task id (some ids) = put a task (del ids id)

-- The audit of a new token failed: a task's set that gets empty stays.
unfoldable pub unlink_minted : Broker → String → String → Broker
unlink_minted b task id = record b {
  active_by_task = dropped b.active_by_task task id (get b.active_by_task task);
  task_by_token = del b.task_by_token id;
}

abbrev pub put_unless_empty : Dict String Set → String → Set → Dict String Set
put_unless_empty a task [] = del a task
put_unless_empty a task (e ∷ ids) = put a task (e ∷ ids)

abbrev pub drop_live : Dict String Set → String → String → Option Set → Dict String Set
drop_live a task id none = a
drop_live a task id (some ids) = put_unless_empty a task (del ids id)

abbrev pub unlink_from : Broker → String → Option String → Broker
unlink_from b id none = b
unlink_from b id (some task) = record b {
  active_by_task = drop_live b.active_by_task task id (get b.active_by_task task);
  task_by_token = del b.task_by_token id;
}

-- Without an entry for the token nothing is done.
unfoldable pub unlink : Broker → String → Broker
unlink b id = unlink_from b id (get b.task_by_token id)

abbrev strings : List String → Items
strings [] = nil
strings (s ∷ ss) = cons (str s) (strings ss)

abbrev pub is_none {ℓ} : {A : Type ℓ} → Option A → Bool
is_none none = true
is_none (some _) = false

unfoldable pub mint_row : Codec → Token → ℕ → Record
mint_row c t ttl =
    row goal_auth t.caller "mint"
      (obj (
        field "token_id" (str t.id) (
          field "tenant" (str t.tenant) (
            field "task" (str t.task)
              (field "scope" (arr (strings t.scope)) (field "ttl" (str (c.ttl_text ttl)) end))))))
      allow "credential broker mint"

-- From the encoded token on.
unfoldable pub hand_out :
    Codec → Env → Broker → Token → ℕ → Option String → Broker × Result Error String
unfolding link unlink_minted append_row mint_row
hand_out c e b t ttl none = (b, err unencodable)
hand_out c e b t ttl (some payload) =
    let b' = link b t.task t.id in
    if is_none b.ledger || e.append
    then (append_row e (mint_row c t ttl) b', ok wire)
    else (unlink_minted b' t.task t.id, err mint_audit)
  where
    wire : String
    wire = str_append (c.encode payload) (str_append "." (c.sign payload))

unfoldable pub new_token : Env → String → String → String → String → List String → ℕ → Token
new_token e id caller tenant task scope ttl = record {
  id = id;
  caller = caller;
  tenant = tenant;
  task = task;
  scope = scope;
  exp = e.now + ttl;
}

-- `rand` is what `randID` returns, `none` without a random source.
unfoldable pub mint :
    Codec
    → Env
    → Option String
    → Broker
    → String
    → String
    → String
    → List String
    → ℕ
    → Broker × Result Error String
unfolding hand_out new_token
mint c e none b caller tenant task scope ttl0 = (b, err no_random)
mint c e (some id) b caller tenant task scope ttl0 = hand_out c e b token ttl (c.marshal token)
  where
    ttl : ℕ
    ttl = if ttl0 == 0 then b.default_ttl else ttl0

    token : Token
    token = new_token e id caller tenant task scope ttl
