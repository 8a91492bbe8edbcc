-- ===== src/Identity/Denied.antt =====
-- What internal/identity/broker.go and persist.go deny: in memory, and in the file that a restarted
-- broker reads.
use pvm.Prelude.{
  String, ◌≡◌, refl, Bool, true, false, not, ◌&&◌, ◌||◌, List, [], ◌∷◌, ◌==◌, text_comparable,
  eq_iff, arith, ok, inl, inr, Bool-cases, Option-cases,
}
use pvm.Prelude.Dict.{get, put, del, get-put, get-del}
use pvm.Fsjson
use pvm.Fsjson.{Disk}
use pvm.Audit.Record.{Record}
use pvm.Identity.Broker.{
  Token, Set, has, members, Content, stored, image, saved, Broker, Env, append_row, persist_locked,
  unlink,
}
use pvm.Identity.Lease.{insert_all}

abbrev pub listed : List String → String → Bool
listed [] k = false
listed (j ∷ ks) k = j == k || listed ks k

-- By its id, or by its signed task.
abbrev pub denied : Broker → Token → Bool
denied b t = has b.revoked t.id || not (t.task == "") && has b.revoked_tasks t.task

abbrev pub file_denied : Content → Token → Bool
file_denied (stored f) t = listed f.revoked t.id || not (t.task == "") && listed f.tasks t.task
file_denied _ t = false

-- Denied now, and after a restart.
abbrev pub IsWithdrawn : Token → Broker → Type 0
IsWithdrawn t b = (denied b t ≡ true) × (file_denied b.file t ≡ true) × ((b.rev_path == "") ≡ false)

pub listed-members : (s : Set) (k : String) → listed (members s) k ≡ has s k
unfolding get
listed-members [] k = refl
listed-members ((j, u) ∷ s) k = ground (arith, listed-members s k)

pub has-put : (s : Set) (k j : String) → has (put s k tt) j ≡ (k == j || has s j)
has-put s k j = ground (arith, get-put s k j tt)

pub has-insert_all :
    (ks : List String) (s : Set) (k : String) → has (insert_all ks s) k ≡ (listed ks k || has s k)
unfolding insert_all
has-insert_all [] s k = refl
has-insert_all (j ∷ ks) s k = ground (arith, has-insert_all ks (put s j tt) k, has-put s j k)

-- Dropping what is not there changes nothing.
pub has-del : (s : Set) (k j : String) → has s k ≡ false → has (del s k) j ≡ has s j
has-del s k j h = ground (arith, get-del s k j, eq_iff k j)

pub unlink-IsWithdrawn :
    (t : Token) (b : Broker) (id : String) → IsWithdrawn t b → IsWithdrawn t (unlink b id)
unfolding unlink
unlink-IsWithdrawn t b id h = elim (Option-cases (get b.task_by_token id)) [
  | inl missing ↦ rw (missing, unlink) h
  | inr (task, found) ↦ rw (found, unlink) h
]

pub append_row-IsWithdrawn :
    (t : Token) (e : Env) (r : Record) (b : Broker)
    → IsWithdrawn t b
    → IsWithdrawn t (append_row e r b)
unfolding append_row
append_row-IsWithdrawn t e r b h = elim (Bool-cases e.append) [
  | inl takes ↦ rw (takes, append_row) h
  | inr refuses ↦ rw (refuses, append_row) h
]

-- Adding to the sets keeps a token denied.
pub denied-more :
    (t : Token) (b b' : Broker)
    → ((k : String) → has b.revoked k ≡ true → has b'.revoked k ≡ true)
    → ((k : String) → has b.revoked_tasks k ≡ true → has b'.revoked_tasks k ≡ true)
    → denied b t ≡ true
    → denied b' t ≡ true
denied-more t b b' p q h = ground (arith, p t.id, q t.task)

file_denied-image : (t : Token) (b : Broker) → denied b t ≡ true → file_denied (image b) t ≡ true
file_denied-image t b h =
    ground (arith, listed-members b.revoked t.id, listed-members b.revoked_tasks t.task)

saved-IsWithdrawn :
    (t : Token) (d : Disk) (b : Broker)
    → IsWithdrawn t b
    → IsWithdrawn t (saved b (Fsjson.write d b.file (image b))).0
saved-IsWithdrawn t d b h = elim (Fsjson.write_cases d b.file (image b)) [
  | inl (inl q) ↦ rw q (h.0, file_denied-image t b h.0, h.2)
  | inl (inr q) ↦ rw q (h.0, file_denied-image t b h.0, h.2)
  | inr q ↦ rw q h
]

-- Whatever the disk does, the file goes on denying what memory denies.
pub persist_locked-IsWithdrawn :
    (t : Token) (d : Disk) (b : Broker) → IsWithdrawn t b → IsWithdrawn t (persist_locked d b).0
unfolding persist_locked
persist_locked-IsWithdrawn t d b h = rw (h.2, persist_locked) (saved-IsWithdrawn t d b h)

-- A write that reports success has put all that memory denies into the file.
pub persist_locked-ok :
    (t : Token) (d : Disk) (b : Broker)
    → (b.rev_path == "") ≡ false
    → denied b t ≡ true
    → (persist_locked d b).1 ≡ ok tt
    → IsWithdrawn t (persist_locked d b).0
unfolding persist_locked
persist_locked-ok t d b p h q = elim (Fsjson.write_cases d b.file (image b)) [
  | inl (inl w) ↦ rw (p, w, persist_locked) (h, file_denied-image t b h, p)
  | inl (inr w) ↦ rw (p, w, persist_locked) (h, file_denied-image t b h, p)
  | inr w ↦ cc (rw (p, w, persist_locked) at q)
]
