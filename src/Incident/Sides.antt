-- ===== src/Incident/Sides.antt =====
-- internal/incident/controller.go: the sides on which an incident is
-- contained, and that a bulk revocation takes effect at once.
use pvm.Prelude.{
  String, ◌≡◌, refl, ◌∙◌, inl, inr, true, false, Option, none, some, some-injective, subst, ◌==◌,
  text_comparable, nat_comparable, beq_refl, arith, Result, ok, err, length, Bool-cases,
}
use pvm.Audit.Record.{Record}
use pvm.Fsjson
use pvm.Fsjson.{Disk}
use pvm.Identity.Broker.{
  Token, members, live, Broker, Codec, Env, append_row, persist_locked, image, saved, Content,
}
use pvm.Identity.Lease.{revoke_all_for_task, revoke_ids, close_task, bulk_row}
use pvm.Identity.Denied.{denied, has-put}
use pvm.Incident.Controller.{Hook, Hooks}

-- What a hook makes of the world, whether it reports an error or not.
abbrev pub after {ℓ} : {S : Type ℓ} → Hook S → String → S → S
after none task w = w
after (some f) task w = (f task w).0

abbrev pub gated {κ} : {E : Type 0} {A : Type κ} → Result E (Unit {0}) → A → A → A
gated (ok _) x y = x
gated (err _) x y = y

-- The broker after the revocation, and the world: the hook runs only if that could be saved.
abbrev pub revoked_broker : Codec → Env → String → Option Broker → Option Broker
revoked_broker c e task none = none
revoked_broker c e task (some b) = some (revoke_all_for_task c e b task).0

abbrev pub revoked_world {ℓ} : {S : Type ℓ} → Codec → Env → Hooks S → String → Option Broker → S → S
revoked_world c e h task none w = after h.revoke_identities task w
revoked_world c e h task (some b) w =
    gated (revoke_all_for_task c e b task).1.1 (after h.revoke_identities task w) w

-- All four sides, in their order.
abbrev pub contained {ℓ} : {S : Type ℓ} → Codec → Env → Hooks S → String → Option Broker → S → S
contained c e h task b w =
    after h.preserve task
      (after h.freeze_runtime task (after h.block_network task (revoked_world c e h task b w)))

append_row-denied :
    (e : Env) (r : Record) (b : Broker) (t : Token) → denied (append_row e r b) t ≡ denied b t
unfolding append_row
append_row-denied e r b t = elim (Bool-cases e.append) [
  | inl takes ↦ rw (takes, append_row) refl
  | inr refuses ↦ rw (refuses, append_row) refl
]

saved-denied :
    (b : Broker) (r : Content × Result Fsjson.Error (Unit {0})) (t : Token)
    → denied (saved b r).0 t ≡ denied b t
saved-denied b (file, ok _) t = refl
saved-denied b (file, err x) t = refl

persist_locked-denied :
    (d : Disk) (b : Broker) (t : Token) → denied (persist_locked d b).0 t ≡ denied b t
unfolding persist_locked
persist_locked-denied d b t = elim (Bool-cases (b.rev_path == "")) [
  | inl off ↦ rw (off, persist_locked) refl
  | inr on ↦ rw (on, persist_locked) (saved-denied b (Fsjson.write d b.file (image b)) t)
]

-- In memory a bulk revocation takes effect whether it can be saved or not.
pub revoke_all_for_task-denied :
    (c : Codec) (e : Env) (b : Broker) (task : String) (t : Token)
    → t.task ≡ task
    → (t.task == "") ≡ false
    → denied (revoke_all_for_task c e b task).0 t ≡ true
unfolding revoke_all_for_task
revoke_all_for_task-denied c e b task t q n =
    let ids = members (live b.active_by_task task) in
    append_row-denied e (bulk_row c task (length ids)) _ t
    ∙ (persist_locked-denied e.disk (close_task (revoke_ids ids b) task) t
        ∙ ground (arith, has-put (revoke_ids ids b).revoked_tasks task t.task, beq_refl task, q, n))

pub revoked_broker-denied :
    (c : Codec) (e : Env) (task : String) (o : Option Broker) (b : Broker) (t : Token)
    → revoked_broker c e task o ≡ some b
    → t.task ≡ task
    → (t.task == "") ≡ false
    → denied b t ≡ true
revoked_broker-denied c e task none b t q i n = cc
revoked_broker-denied c e task (some b') b t q i n =
    subst (λ d. denied d t ≡ true) (some-injective _ _ q)
      (revoke_all_for_task-denied c e b' task t i n)
