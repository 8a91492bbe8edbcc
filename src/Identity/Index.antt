-- ===== src/Identity/Index.antt =====
-- internal/identity/broker.go: `activeByTask` and its reverse `taskByToken` stay in step.
use pvm.Prelude.{
  String, ◌≡◌, refl, true, false, ◌&&◌, Option, none, some, List, [], ◌∷◌, ◌==◌, text_comparable,
  nat_comparable, eq_iff, arith, length, if◌then◌else◌, Result, ok, err, inl, inr, Bool-cases,
  Option-cases,
}
use pvm.Prelude.Dict.{Dict, get, put, del, get-put, get-del}
use pvm.Audit.Record.{Record}
use pvm.Fsjson
use pvm.Fsjson.{Disk}
use pvm.Identity.Broker.{
  Set, has, members, Content, Broker, Codec, Env, append_row, persist_locked, unlink, link,
  unlink_minted, unlink_from, dropped, live, drop_live, put_unless_empty, image, saved,
}
use pvm.Identity.Lease.{revoke, revoke_ids, close_task, revoke_all_for_task, bulk_row}
use pvm.Identity.Denied.{listed, listed-members, has-put}

live-put :
    (a : Dict String Set) (task j : String) (s : Set)
    → live (put a task s) j ≡ (if task == j then s else live a j)
live-put a task j s = ground (arith, get-put a task j s)

live-del :
    (a : Dict String Set) (task j : String)
    → live (del a task) j ≡ (if task == j then [] else live a j)
live-del a task j = ground (arith, get-del a task j)

live-put_unless_empty :
    (a : Dict String Set) (task j : String) (s : Set)
    → live (put_unless_empty a task s) j ≡ (if task == j then s else live a j)
live-put_unless_empty a task j [] = live-del a task j
live-put_unless_empty a task j (e ∷ s) = live-put a task j (e ∷ s)

has-del_if : (s : Set) (id k : String) → has (del s id) k ≡ (if id == k then false else has s k)
has-del_if s id k = ground (arith, get-del s id k)

has-nil : (k : String) → has [] k ≡ false
unfolding get
has-nil k = refl

-- A token is in the live set of its task, and of no other.
pub record IsLinked (b : Broker) : Type 0 where
  pub out :
      (id task : String)
      → get b.task_by_token id ≡ some task
      → has (live b.active_by_task task) id ≡ true
  pub back :
      (id task : String)
      → has (live b.active_by_task task) id ≡ true
      → get b.task_by_token id ≡ some task

pub link-IsLinked :
    (b : Broker) (task id : String)
    → get b.task_by_token id ≡ none
    → IsLinked b
    → IsLinked (link b task id)
unfolding link
link-IsLinked b task id n h = record {
  out = λ k j. ground (
    arith,
    get-put b.task_by_token id k task,
    live-put b.active_by_task task j (put (live b.active_by_task task) id tt),
    has-put (live b.active_by_task task) id k,
    h.out k j,
    eq_iff id k,
    eq_iff task j,
  );
  back = λ k j. ground (
    arith,
    get-put b.task_by_token id k task,
    live-put b.active_by_task task j (put (live b.active_by_task task) id tt),
    has-put (live b.active_by_task task) id k,
    h.back k j,
    eq_iff id k,
    eq_iff task j,
    n,
  );
}

-- Both ways to drop a token from its task's set.
has-dropped :
    (a : Dict String Set) (task id j k : String) (o : Option Set)
    → get a task ≡ o
    → has (live (dropped a task id o) j) k
      ≡ (if task == j && id == k then false else has (live a j) k)
has-dropped a task id j k none q = ground (arith, q, eq_iff task j, has-nil k)
has-dropped a task id j k (some ids) q =
    ground (arith, live-put a task j (del ids id), has-del_if ids id k, q, eq_iff task j)

has-drop_live :
    (a : Dict String Set) (task id j k : String) (o : Option Set)
    → get a task ≡ o
    → has (live (drop_live a task id o) j) k
      ≡ (if task == j && id == k then false else has (live a j) k)
has-drop_live a task id j k none q = ground (arith, q, eq_iff task j, has-nil k)
has-drop_live a task id j k (some ids) q =
    ground
      (arith, live-put_unless_empty a task j (del ids id), has-del_if ids id k, q, eq_iff task j)

-- An index without one token.
without :
    (b b' : Broker) (id task : String)
    → ((k : String) → get b'.task_by_token k ≡ (if id == k then none else get b.task_by_token k))
    → ((j k : String)
        → has (live b'.active_by_task j) k
          ≡ (if task == j && id == k then false else has (live b.active_by_task j) k))
    → get b.task_by_token id ≡ some task
    → IsLinked b
    → IsLinked b'
without b b' id task p q found h = record {
  out = λ k j. ground (arith, p k, q j k, h.out k j, eq_iff id k, eq_iff task j, found);
  back = λ k j. ground (arith, p k, q j k, h.back k j, eq_iff id k, eq_iff task j, found);
}

pub unlink-IsLinked : (b : Broker) (id : String) → IsLinked b → IsLinked (unlink b id)
unfolding unlink
unlink-IsLinked b id h = elim (Option-cases (get b.task_by_token id)) [
  | inl missing ↦ rw (missing, unlink) h
  | inr (task, found) ↦
      rw (found, unlink)
        (without b (unlink_from b id (some task)) id task (λ k. get-del b.task_by_token id k)
          (λ j k. has-drop_live b.active_by_task task id j k _ refl) found h)
]

pub unlink_minted-IsLinked :
    (b : Broker) (task id : String)
    → get b.task_by_token id ≡ some task
    → IsLinked b
    → IsLinked (unlink_minted b task id)
unfolding unlink_minted
unlink_minted-IsLinked b task id found h =
    without b (unlink_minted b task id) id task (λ k. get-del b.task_by_token id k)
      (λ j k. has-dropped b.active_by_task task id j k _ refl) found h

-- Auditing and saving leave the index alone.
pub append_row-IsLinked :
    (e : Env) (r : Record) (b : Broker) → IsLinked b → IsLinked (append_row e r b)
unfolding append_row
append_row-IsLinked e r b h = elim (Bool-cases e.append) [
  | inl takes ↦ rw (takes, append_row) (record { out = h.out; back = h.back })
  | inr refuses ↦ rw (refuses, append_row) h
]

saved-IsLinked :
    (b : Broker) (r : Content × Result Fsjson.Error (Unit {0}))
    → IsLinked b
    → IsLinked (saved b r).0
saved-IsLinked b (file, ok _) h = record { out = h.out; back = h.back }
saved-IsLinked b (file, err x) h = record { out = h.out; back = h.back }

pub persist_locked-IsLinked : (d : Disk) (b : Broker) → IsLinked b → IsLinked (persist_locked d b).0
unfolding persist_locked
persist_locked-IsLinked d b h = elim (Bool-cases (b.rev_path == "")) [
  | inl off ↦ rw (off, persist_locked) h
  | inr on ↦ rw (on, persist_locked) (saved-IsLinked b (Fsjson.write d b.file (image b)) h)
]

pub revoke-IsLinked : (e : Env) (b : Broker) (id : String) → IsLinked b → IsLinked (revoke e b id).0
unfolding revoke
revoke-IsLinked e b id h = append_row-IsLinked e _ _ (
    persist_locked-IsLinked e.disk _ (
      unlink-IsLinked (record b { revoked = put b.revoked id tt }) id
        (record { out = h.out; back = h.back })))

revoke_ids-index :
    (ids : List String) (b : Broker) (k : String)
    → get (revoke_ids ids b).task_by_token k
      ≡ (if listed ids k then none else get b.task_by_token k)
unfolding revoke_ids
revoke_ids-index [] b k = refl
revoke_ids-index (id ∷ ids) b k = ground (
  arith,
  revoke_ids-index ids
      (record b { revoked = put b.revoked id tt; task_by_token = del b.task_by_token id }) k,
  get-del b.task_by_token id k,
)

revoke_ids-active :
    (ids : List String) (b : Broker) → (revoke_ids ids b).active_by_task ≡ b.active_by_task
unfolding revoke_ids
revoke_ids-active [] b = refl
revoke_ids-active (id ∷ ids) b = revoke_ids-active ids _

close_task-IsLinked :
    (b : Broker) (task : String)
    → IsLinked b
    → IsLinked (close_task (revoke_ids (members (live b.active_by_task task)) b) task)
close_task-IsLinked b task h = record {
  out = λ k j. ground (
    arith,
    revoke_ids-active (members (live b.active_by_task task)) b,
    revoke_ids-index (members (live b.active_by_task task)) b k,
    listed-members (live b.active_by_task task) k,
    live-del b.active_by_task task j,
    h.out k j,
    eq_iff task j,
  );
  back = λ k j. ground (
    arith,
    revoke_ids-active (members (live b.active_by_task task)) b,
    revoke_ids-index (members (live b.active_by_task task)) b k,
    listed-members (live b.active_by_task task) k,
    live-del b.active_by_task task j,
    h.back k j,
    h.back k task,
    eq_iff task j,
    has-nil k,
  );
}

pub revoke_all_for_task-IsLinked :
    (c : Codec) (e : Env) (b : Broker) (task : String)
    → IsLinked b
    → IsLinked (revoke_all_for_task c e b task).0
unfolding revoke_all_for_task
revoke_all_for_task-IsLinked c e b task h =
    append_row-IsLinked e (bulk_row c task (length (members (live b.active_by_task task)))) _ (
      persist_locked-IsLinked e.disk
        (close_task (revoke_ids (members (live b.active_by_task task)) b) task)
        (close_task-IsLinked b task h))
