-- ===== src/Identity/Examples.antt =====
-- Runs of the broker, and one use of each theorem about it.
use pvm.Prelude.{
  ℕ, String, ◌≡◌, refl, true, false, none, some, some-injective, [], ◌∷◌, if◌then◌else◌, ok, err,
  ◌==◌, text_comparable, nat_comparable,
}
use pvm.Prelude.Dict.{get, put, del}
use pvm.Fsjson
use pvm.Fsjson.{Disk}
use pvm.Identity.Broker.{
  Token, Broker, absent, stored, token_revoked, token_expired, Codec, Env, new_broker, mint, link,
  hand_out, new_token, append_row, unlink, persist_locked, mint_row,
}
use pvm.Identity.Lease.{
  split_dot, open_token, validate, revoke, revoke_ids, revoke_all_for_task, Reading,
  persist_revocations, bulk_row,
}
use pvm.Identity.Forever.{
  mints, validates, revokes, restarts, run, by_task, withdraw, validate-withdrawn, revoke-unread,
}
use pvm.Identity.Index.{IsLinked}
use pvm.Identity.Linked.{run-IsLinked}
use pvm.Identity.RoundTrip.{RoundTrips, validate-mint}

abbrev good : Disk
good = record {
  create = true;
  encode = true;
  sync = true;
  close = true;
  rename = true;
  open_dir = true;
  sync_dir = true;
  close_dir = true;
}

abbrev token : String → String → Token
token id task = record {
  id = id;
  caller = "agent";
  tenant = "acme";
  task = task;
  scope = "repo:read" ∷ [];
  exp = 100;
}

-- One payload only, the one of the token `t1`, which the texts below stand for.
abbrev toy : Codec
toy = record {
  sign = λ p. "sig";
  encode = λ p. p;
  decode = λ s. some s;
  marshal = λ t. some "payload";
  unmarshal = λ p. if p == "payload" then some (token "t1" "task1") else none;
  ttl_text = λ n. "15m";
  count_text = λ n. "1";
}

abbrev env : ℕ → Env
env now = record { now = now; append = true; disk = good }

abbrev broker : Broker
broker = record (new_broker (some []) 90 absent) { rev_path = "rev.json" }

abbrev reading : Reading
reading = record { make_dir = true; read = true }

abbrev wire : String
wire = "payload.sig"

mints_token :
    (mint toy (env 10) (some "t1") broker "agent" "acme" "task1" ("repo:read" ∷ []) 0).1 ≡ ok wire
unfolding mint new_token hand_out link append_row new_broker mint_row get put
mints_token = refl

opens_token : open_token toy wire ≡ ok (token "t1" "task1")
unfolding open_token split_dot
opens_token = refl

abbrev minted : Broker
minted = (mint toy (env 10) (some "t1") broker "agent" "acme" "task1" ("repo:read" ∷ []) 0).0

saves_task : (withdraw toy (env 20) minted by_task (token "t1" "task1")).1 ≡ ok tt
unfolding withdraw revoke_all_for_task revoke_ids persist_locked append_row mint new_token hand_out
    link new_broker get put del mint_row bulk_row Fsjson.write
saves_task = refl

minted_path : (minted.rev_path == "") ≡ false
unfolding mint new_token hand_out link append_row new_broker mint_row get put
minted_path = refl

validate-withdrawn_example :
    (validate toy 30
      (run toy
        (withdraw toy (env 20) minted by_task (token "t1" "task1")).0
        ((env 21, restarts reading none 0) ∷ (env 22, validates wire) ∷ []))
      wire).1
    ≡ err token_revoked
validate-withdrawn_example =
    validate-withdrawn toy (env 20) minted by_task (token "t1" "task1") wire
      ((env 21, restarts reading none 0) ∷ (env 22, validates wire) ∷ []) 30 opens_token refl
      minted_path saves_task ((refl, refl), (tt, tt)) (tt, (tt, tt))

abbrev old : Broker
old = new_broker none 0 (stored (record { revoked = "t1" ∷ []; tasks = [] }))

unread_saved :
    (revoke
      (env 5)
      (persist_revocations good (record { make_dir = true; read = false }) old "r").0
      "t2").1
    ≡ ok tt
unfolding revoke persist_revocations new_broker unlink persist_locked append_row get put
    Fsjson.write
unread_saved = refl

-- The file listed the token t1 before.
revoke-unread_example :
    (revoke
      (env 5)
      (persist_revocations good (record { make_dir = true; read = false }) old "r").0
      "t2").0.file
    ≡ stored (record { revoked = "t2" ∷ []; tasks = [] })
unfolding new_broker put
revoke-unread_example =
    revoke-unread good (record { make_dir = true; read = false }) (env 5) old "r" "t2" refl refl
      refl unread_saved

run-IsLinked_example : IsLinked (
    run toy broker
      ((env 1, mints (some "t1") "agent" "acme" "task1" [] 0) ∷ (env 2, revokes "t1") ∷ []))
unfolding new_broker get
run-IsLinked_example =
    run-IsLinked toy broker
      ((env 1, mints (some "t1") "agent" "acme" "task1" [] 0) ∷ (env 2, revokes "t1") ∷ [])
      (refl, (tt, tt)) (record { out = λ id task q. cc; back = λ id task q. cc })

toy-RoundTrips : (t : Token) → t ≡ token "t1" "task1" → RoundTrips toy t
unfolding split_dot
toy-RoundTrips t q = record {
  decode-encode = λ p m. refl;
  dotless = λ p m. rw (← some-injective _ _ m) refl;
  unmarshal-marshal = λ p m. rw (← some-injective _ _ m, q) refl;
}

validate-mint_example :
    (validate toy 101
      (mint toy (env 10) (some "t1") broker "agent" "acme" "task1" ("repo:read" ∷ []) 0).0
      wire).1
    ≡ err token_expired
unfolding new_broker get new_token
validate-mint_example =
    validate-mint toy (env 10) broker "t1" "agent" "acme" "task1" ("repo:read" ∷ []) 0 wire 101
      (toy-RoundTrips _ refl) mints_token
