-- ===== src/Identity/Lease.antt =====
-- internal/identity/broker.go: `Validate`, `RequireScope`, `Revoke`, `RevokeAllForTask`; and
-- internal/identity/persist.go: `PersistRevocations`, `Refresh`.
use Prim.Native.Char.{code}
use pvm.Prelude.{
  ℕ, String, Bool, false, not, ◌&&◌, ◌||◌, Option, none, some, List, [], ◌∷◌, length, ◌==◌,
  text_comparable, nat_comparable, ltb, if◌then◌else◌, Result, ok, err,
}
use pvm.Prelude.Dict.{get, put, del}
use pvm.Json.{obj, field, end, null, num}
use pvm.Fsjson.{Disk}
use pvm.Audit.Record.{Record, row, execution}
use pvm.Audit.Record
use pvm.Identity.Broker.{
  Token, Set, has, members, Content, absent, corrupt, stored, Broker, Error, token_revoked,
  token_expired, signature, scope_missing, Codec, Env, append_row, persist_locked, live, unlink,
  mint,
}

-- `strings.SplitN(s, ".", 2)`, when it gives two parts.
unfoldable pub split_dot : String → Option (String × String)
split_dot String.[] = none
split_dot (String.◌∷◌ x s) =
    let rest = split_dot s in
    if code x == b'.'
    then some (String.[], s)
    else elim rest [ none ↦ none | some (a, b) ↦ some (String.◌∷◌ x a, b) ]

abbrev unmarshalled : Option Token → Result Error Token
unmarshalled none = err signature
unmarshalled (some t) = ok t

abbrev pub open_payload : Codec → String → Option String → Result Error Token
open_payload c sig none = err signature
open_payload c sig (some payload) =
    if sig == c.sign payload then unmarshalled (c.unmarshal payload) else err signature

-- The checks that read only the token and the key.
unfoldable pub open_token : Codec → String → Result Error Token
unfolding split_dot
open_token c wire = elim (split_dot wire) [
  | none ↦ err signature
  | some (body, sig) ↦ open_payload c sig (c.decode body)
]

abbrev pub linked_revoked : Broker → Option String → Bool
linked_revoked b none = false
linked_revoked b (some task) = has b.revoked_tasks task

-- The second locked section of `Validate`, for a token that it has found expired: the token is dropped from
-- the index and from `revoked`.
abbrev pub forget : Broker → Token → Broker
forget b t = record (unlink b t.id) { revoked = del (unlink b t.id).revoked t.id }

-- The answer and what it leaves, when nothing comes between the two locked sections. A call whose first
-- section found the token expired and whose second comes later is `forget` at that time.
unfoldable pub check_token : ℕ → Broker → Token → Broker × Result Error Token
unfolding unlink
check_token now b t =
    if has b.revoked t.id
    then (b, err token_revoked)
    else if linked_revoked b (get b.task_by_token t.id)
        || not (t.task == "") && has b.revoked_tasks t.task
    then (b, err token_revoked)
    else if ltb t.exp now
    then (forget b t, err token_expired)
    else (b, ok t)

abbrev pub checked : ℕ → Broker → Result Error Token → Broker × Result Error Token
checked now b (err x) = (b, err x)
checked now b (ok t) = check_token now b t

unfoldable pub validate : Codec → ℕ → Broker → String → Broker × Result Error Token
unfolding open_token check_token
validate c now b wire = checked now b (open_token c wire)

abbrev holds_scope : List String → String → Bool
holds_scope [] want = false
holds_scope (s ∷ scope) want = s == want || holds_scope scope want

unfoldable pub first_missing : List String → List String → Option String
first_missing scope [] = none
first_missing scope (want ∷ wants) =
    let rest = first_missing scope wants in if holds_scope scope want then rest else some want

abbrev pub granted : Broker → Token → Option String → Broker × Result Error Token
granted b t none = (b, ok t)
granted b t (some want) = (b, err scope_missing)

abbrev pub scoped : Broker × Result Error Token → List String → Broker × Result Error Token
scoped (b, err x) required = (b, err x)
scoped (b, ok t) required = granted b t (first_missing t.scope required)

unfoldable pub require_scope :
    Codec → ℕ → Broker → String → List String → Broker × Result Error Token
unfolding validate first_missing
require_scope c now b wire required = scoped (validate c now b wire) required

abbrev pub with_row {ℓ} : {A : Type ℓ} → Env → Record → Broker × A → Broker × A
with_row e r (b, a) = (append_row e r b, a)

-- In memory a revocation always takes effect. A failed audit is only logged.
unfoldable pub revoke : Env → Broker → String → Broker × Result Error (Unit {0})
unfolding unlink append_row persist_locked
revoke e b id =
    with_row e (row execution id "revoke" null Record.Decision.revoke "credential broker revoke")
      (persist_locked e.disk (unlink (record b { revoked = put b.revoked id tt }) id))

-- The loop over a task's live tokens.
unfoldable pub revoke_ids : List String → Broker → Broker
revoke_ids [] b = b
revoke_ids (id ∷ ids) b =
    revoke_ids ids
      (record b { revoked = put b.revoked id tt; task_by_token = del b.task_by_token id })

abbrev pub close_task : Broker → String → Broker
close_task b task = record b {
  active_by_task = del b.active_by_task task;
  revoked_tasks = put b.revoked_tasks task tt;
}

abbrev pub counted : ℕ → Broker × Result Error (Unit {0}) → Broker × (ℕ × Result Error (Unit {0}))
counted n (b, r) = (b, (n, r))

unfoldable pub bulk_row : Codec → String → ℕ → Record
bulk_row c task n =
    row execution task "revoke_all" (obj (field "revoked" (num (c.count_text n)) end))
      Record.Decision.revoke "bulk revoke for task"

-- The count comes back also with an error.
unfoldable pub revoke_all_for_task :
    Codec → Env → Broker → String → Broker × (ℕ × Result Error (Unit {0}))
unfolding revoke_ids append_row persist_locked bulk_row
revoke_all_for_task c e b task =
    with_row e (bulk_row c task (length (members (live b.active_by_task task)))) (
      counted (length (members (live b.active_by_task task))) (
        persist_locked e.disk
          (close_task (revoke_ids (members (live b.active_by_task task)) b) task)))

-- What stops `PersistRevocations`.
pub data StartError : Type 0 where
  empty_path create_dir unreadable : StartError
  unsaved : Error → StartError

pub record Reading : Type 0 where
  pub make_dir : Bool
  pub read : Bool

unfoldable pub insert_all : List String → Set → Set
insert_all [] s = s
insert_all (k ∷ ks) s = insert_all ks (put s k tt)

-- A corrupt file is moved away, and counts as none.
unfoldable pub merge_file : Content → Broker → Broker
unfolding insert_all
merge_file (stored f) b = record b {
  revoked = insert_all f.revoked b.revoked;
  revoked_tasks = insert_all f.tasks b.revoked_tasks;
}
merge_file corrupt b = record b { file = absent }
merge_file _ b = b

abbrev pub started : Broker × Result Error (Unit {0}) → Broker × Result StartError (Unit {0})
started (b, ok _) = (b, ok tt)
started (b, err x) = (b, err (unsaved x))

unfoldable pub persist_revocations :
    Disk → Reading → Broker → String → Broker × Result StartError (Unit {0})
unfolding merge_file persist_locked
persist_revocations d r b path =
    if path == ""
    then (b, err empty_path)
    else if not r.make_dir
    then (b, err create_dir)
    else if not r.read
    then (record b { rev_path = path }, err unreadable)
    else started (persist_locked d (merge_file b.file (record b { rev_path = path })))

-- The signed task of a token, or else the one in the index.
abbrev pub task_of : Broker → Token → String
task_of b t =
    if t.task == ""
    then elim (get b.task_by_token t.id) [ none ↦ "" | some task ↦ task ]
    else t.task

abbrev pub replaced : String → Broker × Result Error (Unit {0}) → Broker × Result Error String
replaced fresh (b, ok _) = (b, ok fresh)
replaced fresh (b, err x) = (b, err x)

abbrev pub retire : Env → String → Broker × Result Error String → Broker × Result Error String
retire e id (b, err x) = (b, err x)
retire e id (b, ok fresh) = replaced fresh (revoke e b id)

abbrev pub renew :
    Codec → Env → Option String → ℕ → Broker × Result Error Token → Broker × Result Error String
renew c e rand ttl (b, err x) = (b, err x)
renew c e rand ttl (b, ok t) =
    retire e t.id (mint c e rand b t.caller t.tenant (task_of b t) t.scope ttl)

unfoldable pub refresh :
    Codec → Env → Option String → Broker → String → ℕ → Broker × Result Error String
unfolding validate revoke
refresh c e rand b wire ttl = renew c e rand ttl (validate c e.now b wire)
