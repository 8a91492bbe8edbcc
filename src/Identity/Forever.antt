-- ===== src/Identity/Forever.antt =====
-- internal/identity/broker.go and persist.go: withdrawn tokens over histories of calls and restarts, and
-- what a restart that cannot read its file does.
use pvm.Prelude.{
  ℕ, String, ◌≡◌, refl, true, false, Option, List, [], ◌∷◌, ◌==◌, text_comparable, beq_refl, arith,
  Result, ok, err, inl, inr, Option-cases, All, length, ap, ◌∙◌, nat_comparable,
}
use pvm.Prelude.Dict.{get, put}
use pvm.Audit.Record.{Record}
use pvm.Fsjson
use pvm.Fsjson.{Disk}
use pvm.Identity.Broker.{
  Token, members, Content, absent, blank, corrupt, stored, Broker, Error, token_revoked, Codec, Env,
  append_row, persist_locked, unlink, mint, new_broker, live, image,
}
use pvm.Identity.Lease.{
  check_token, forget, validate, open_token, require_scope, revoke, revoke_ids, close_task,
  revoke_all_for_task, Reading, merge_file, persist_revocations, started, refresh, bulk_row,
  StartError,
}
use pvm.Identity.Denied.{
  denied, file_denied, IsWithdrawn, has-put, has-insert_all, persist_locked-IsWithdrawn,
  persist_locked-ok, append_row-IsWithdrawn,
}
use pvm.Identity.Withdrawn.{
  mint-IsWithdrawn, validate-IsWithdrawn, require_scope-IsWithdrawn, revoke-IsWithdrawn,
  revoke_all_for_task-IsWithdrawn, refresh-IsWithdrawn, unlink-revoked, forget-IsWithdrawn,
}

-- A new process with the same key and files. Without its revocations it serves all the same.
unfoldable pub restart :
    Disk → Reading → Option (List Record) → ℕ → Broker → Broker × Result StartError (Unit {0})
unfolding new_broker persist_revocations
restart d r ledger ttl b = persist_revocations d r (new_broker ledger ttl b.file) b.rev_path

pub data Op : Type 0 where
  mints : Option String → String → String → String → List String → ℕ → Op
  validates : String → Op
  forgets : Token → Op
  requires : String → List String → Op
  refreshes : Option String → String → ℕ → Op
  revokes : String → Op
  revokes_all : String → Op
  restarts : Reading → Option (List Record) → ℕ → Op

unfoldable pub step : Codec → Env → Broker → Op → Broker
step c e b (mints rand caller tenant task scope ttl) =
    (mint c e rand b caller tenant task scope ttl).0
step c e b (validates wire) = (validate c e.now b wire).0
step c e b (forgets t) = forget b t
step c e b (requires wire required) = (require_scope c e.now b wire required).0
step c e b (refreshes rand wire ttl) = (refresh c e rand b wire ttl).0
step c e b (revokes id) = (revoke e b id).0
step c e b (revokes_all task) = (revoke_all_for_task c e b task).0
step c e b (restarts r ledger ttl) = (restart e.disk r ledger ttl b).0

unfoldable pub run : Codec → Broker → List (Env × Op) → Broker
run c b [] = b
run c b ((e, op) ∷ ops) = run c (step c e b op) ops

-- The call is not the end of a `Validate` that has found this token expired before.
abbrev pub Spares : Token → Env × Op → Type 0
Spares t (e, forgets u) = (u.id == t.id) ≡ false
Spares t _ = Unit

-- A restart can reach its file; whether it can write it is left open.
abbrev pub CanRead : Env × Op → Type 0
CanRead (e, restarts r ledger ttl) = (r.make_dir ≡ true) × (r.read ≡ true)
CanRead _ = Unit

merge_file-IsWithdrawn :
    (t : Token) (f : Content) (b : Broker)
    → b.file ≡ f
    → file_denied f t ≡ true
    → (b.rev_path == "") ≡ false
    → IsWithdrawn t (merge_file f b)
unfolding merge_file
merge_file-IsWithdrawn t (stored f) b q h p = (
  ground (
    arith,
    has-insert_all f.revoked b.revoked t.id,
    has-insert_all f.tasks b.revoked_tasks t.task,
  ),
  rw q h,
  p,
)
merge_file-IsWithdrawn t absent b q h p = cc
merge_file-IsWithdrawn t blank b q h p = cc
merge_file-IsWithdrawn t corrupt b q h p = cc

started-IsWithdrawn :
    (t : Token) (r : Broker × Result Error (Unit {0}))
    → IsWithdrawn t r.0
    → IsWithdrawn t (started r).0
started-IsWithdrawn t (b, ok _) h = h
started-IsWithdrawn t (b, err x) h = h

restart-IsWithdrawn :
    (t : Token) (d : Disk) (r : Reading) (ledger : Option (List Record)) (ttl : ℕ) (b : Broker)
    → (r.make_dir ≡ true) × (r.read ≡ true)
    → IsWithdrawn t b
    → IsWithdrawn t (restart d r ledger ttl b).0
unfolding restart persist_revocations new_broker
restart-IsWithdrawn t d r ledger ttl b can h =
    rw (h.2, can.0, can.1, persist_revocations)
      (started-IsWithdrawn t _ (
        persist_locked-IsWithdrawn t d _ (
          merge_file-IsWithdrawn t b.file
            (record (new_broker ledger ttl b.file) { rev_path = b.rev_path }) refl h.1 h.2)))

step-IsWithdrawn :
    (t : Token) (c : Codec) (e : Env) (b : Broker) (op : Op)
    → CanRead (e, op)
    → Spares t (e, op)
    → IsWithdrawn t b
    → IsWithdrawn t (step c e b op)
unfolding step
step-IsWithdrawn t c e b (mints rand caller tenant task scope ttl) can n h =
    mint-IsWithdrawn t c e rand b caller tenant task scope ttl h
step-IsWithdrawn t c e b (validates wire) can n h = validate-IsWithdrawn t c e.now b wire h
step-IsWithdrawn t c e b (forgets u) can n h = forget-IsWithdrawn t b u n h
step-IsWithdrawn t c e b (requires wire required) can n h =
    require_scope-IsWithdrawn t c e.now b wire required h
step-IsWithdrawn t c e b (refreshes rand wire ttl) can n h =
    refresh-IsWithdrawn t c e rand b wire ttl h
step-IsWithdrawn t c e b (revokes id) can n h = revoke-IsWithdrawn t e b id h
step-IsWithdrawn t c e b (revokes_all task) can n h = revoke_all_for_task-IsWithdrawn t c e b task h
step-IsWithdrawn t c e b (restarts r ledger ttl) can n h =
    restart-IsWithdrawn t e.disk r ledger ttl b can h

run-IsWithdrawn :
    (t : Token) (c : Codec) (b : Broker) (ops : List (Env × Op))
    → All CanRead ops
    → All (Spares t) ops
    → IsWithdrawn t b
    → IsWithdrawn t (run c b ops)
unfolding run
run-IsWithdrawn t c b [] can n h = h
run-IsWithdrawn t c b ((e, op) ∷ ops) can n h =
    run-IsWithdrawn t c (step c e b op) ops can.1 n.1 (step-IsWithdrawn t c e b op can.0 n.0 h)

pub validate-denied :
    (c : Codec) (now : ℕ) (b : Broker) (wire : String) (t : Token)
    → open_token c wire ≡ ok t
    → denied b t ≡ true
    → validate c now b wire ≡ (b, err token_revoked)
unfolding validate check_token
validate-denied c now b wire t o h = rw (o, validate) (ground arith)

-- The two ways to take a token back.
pub data Withdrawal : Type 0 where
  by_id by_task : Withdrawal

abbrev pub Covers : Withdrawal → Token → Type 0
Covers by_id t = Unit
Covers by_task t = (t.task == "") ≡ false

abbrev uncounted : Broker × (ℕ × Result Error (Unit {0})) → Broker × Result Error (Unit {0})
uncounted (b, (n, r)) = (b, r)

unfoldable pub withdraw :
    Codec → Env → Broker → Withdrawal → Token → Broker × Result Error (Unit {0})
unfolding revoke revoke_all_for_task
withdraw c e b by_id t = revoke e b t.id
withdraw c e b by_task t = uncounted (revoke_all_for_task c e b t.task)

revoke_ids-path : (ids : List String) (b : Broker) → (revoke_ids ids b).rev_path ≡ b.rev_path
unfolding revoke_ids
revoke_ids-path [] b = refl
revoke_ids-path (id ∷ ids) b = revoke_ids-path ids _

unlink-path : (b : Broker) (id : String) → (unlink b id).rev_path ≡ b.rev_path
unfolding unlink
unlink-path b id = elim (Option-cases (get b.task_by_token id)) [
  | inl missing ↦ rw (missing, unlink) refl
  | inr (task, found) ↦ rw (found, unlink) refl
]

withdraw-IsWithdrawn :
    (c : Codec) (e : Env) (b : Broker) (k : Withdrawal) (t : Token)
    → Covers k t
    → (b.rev_path == "") ≡ false
    → (withdraw c e b k t).1 ≡ ok tt
    → IsWithdrawn t (withdraw c e b k t).0
unfolding withdraw revoke revoke_all_for_task
withdraw-IsWithdrawn c e b by_id t k p h =
    let b' = unlink (record b { revoked = put b.revoked t.id tt }) t.id in
    append_row-IsWithdrawn t e _ _ (
      persist_locked-ok t e.disk b' (rw unlink-path p) (rw (unlink-revoked, has-put, beq_refl) refl)
        h)
withdraw-IsWithdrawn c e b by_task t k p h =
    let ids = members (live b.active_by_task t.task) in
    append_row-IsWithdrawn t e (bulk_row c t.task (length ids)) _ (
      persist_locked-ok t e.disk (close_task (revoke_ids ids b) t.task) (rw revoke_ids-path p)
        (ground (arith, has-put (revoke_ids ids b).revoked_tasks t.task t.task, beq_refl t.task, k))
        h)

-- With the revocations kept on disk, once `Revoke` on a token's id, or `RevokeAllForTask` on the task
-- that is signed into it, has reported success, `Validate` answers `ErrRevoked` for it after any
-- history of calls and of restarts under the same key, if each restart can read the file, and no `Validate`
-- that found the token expired before the withdrawal drops it from the revoked ones after it.
pub validate-withdrawn :
    (c : Codec) (e : Env) (b : Broker) (k : Withdrawal) (t : Token) (wire : String)
    (ops : List (Env × Op)) (now : ℕ)
    → open_token c wire ≡ ok t
    → Covers k t
    → (b.rev_path == "") ≡ false
    → (withdraw c e b k t).1 ≡ ok tt
    → All CanRead ops
    → All (Spares t) ops
    → (validate c now (run c (withdraw c e b k t).0 ops) wire).1 ≡ err token_revoked
validate-withdrawn c e b k t wire ops now o v p h can n =
    ap (λ r. r.1)
      (validate-denied c now _ wire t o
        (run-IsWithdrawn t c _ ops can n (withdraw-IsWithdrawn c e b k t v p h)).0)

append_row-file : (e : Env) (r : Record) (b : Broker) → (append_row e r b).file ≡ b.file
unfolding append_row
append_row-file e r b = ground arith

persist_locked-file :
    (d : Disk) (b : Broker)
    → (b.rev_path == "") ≡ false
    → (persist_locked d b).1 ≡ ok tt
    → (persist_locked d b).0.file ≡ image b
unfolding persist_locked
persist_locked-file d b p q = elim (Fsjson.write_cases d b.file (image b)) [
  | inl (inl w) ↦ rw (p, w, persist_locked) refl
  | inl (inr w) ↦ rw (p, w, persist_locked) refl
  | inr w ↦ cc (rw (p, w, persist_locked) at q)
]

image-unlink : (b : Broker) (id : String) → image (unlink b id) ≡ image b
unfolding unlink
image-unlink b id = elim (Option-cases (get b.task_by_token id)) [
  | inl missing ↦ rw (missing, unlink) refl
  | inr (task, found) ↦ rw (found, unlink) refl
]

-- When the file cannot be read, the broker goes on without what it lists, and the first `Revoke` that
-- reports success replaces it: then it lists the revoked id and what memory has, and nothing more.
pub revoke-unread :
    (d : Disk) (r : Reading) (e : Env) (b : Broker) (path id : String)
    → (path == "") ≡ false
    → r.make_dir ≡ true
    → r.read ≡ false
    → (revoke e (persist_revocations d r b path).0 id).1 ≡ ok tt
    → (revoke e (persist_revocations d r b path).0 id).0.file
      ≡ stored (record { revoked = members (put b.revoked id tt); tasks = members b.revoked_tasks })
unfolding persist_revocations revoke
revoke-unread d r e b path id p m u h =
    rw (p, m, u, persist_revocations)
      (rw append_row-file (
        persist_locked-file e.disk
          (unlink (record b { revoked = put b.revoked id tt; rev_path = path }) id)
          (rw unlink-path p) (rw (p, m, u, persist_revocations) at h)
        ∙ image-unlink (record b { revoked = put b.revoked id tt; rev_path = path }) id))
