-- ===== src/Audit/Examples.antt =====
-- The theorems about the ledger with the list of the actions as the digest, and tests.
use pvm.Prelude.{
  All, String, ◌≡◌, ◌↔◌, refl, Bool, true, false, ◌&&◌, some, List, [], ◌∷◌, ◌==◌, Comparable,
  text_comparable, nat_comparable, eq_iff, length, arith, ok, err,
}
use pvm.Json.{null}
use pvm.Audit.Record.{Record, row}
use pvm.Audit.Record
use pvm.Audit.Ledger.{
  Entry, File, Disk, Setup, tail_of, refresh_tail, new_entry, write_entry, append, stored,
  flush_head, replay, verify, tampered, truncated,
}
use pvm.Audit.Tamper.{views, verify-injective}
use pvm.Audit.Journal.{Relies}
use pvm.Audit.Writers.{Survives, CallSurvives, Call, open_ledger, write_row, write_mark, step, run}
use pvm.Audit.Verified.{fresh_world, verify-run}

abbrev Digest : Type 0
Digest = List String

abbrev same_texts : Digest → Digest → Bool
same_texts [] [] = true
same_texts [] (y ∷ ys) = false
same_texts (x ∷ xs) [] = false
same_texts (x ∷ xs) (y ∷ ys) = let rest = same_texts xs ys in x == y && rest

same_texts_iff : (xs ys : Digest) → (same_texts xs ys ≡ true) ↔ (xs ≡ ys)
same_texts_iff [] [] = (λ h. refl, λ h. refl)
same_texts_iff [] (y ∷ ys) = (λ h. cc h, λ h. cc h)
same_texts_iff (x ∷ xs) [] = (λ h. cc h, λ h. cc h)
same_texts_iff (x ∷ xs) (y ∷ ys) = (
  λ h. ground (arith, h, eq_iff x y, same_texts_iff xs ys),
  λ h. ground (arith, h, eq_iff x y, same_texts_iff xs ys),
)

instance abbrev digest_comparable : Comparable Digest
digest_comparable = record { equal = same_texts; equal_iff = same_texts_iff }

abbrev setup : Setup Digest
setup = record {
  empty = [];
  hash = λ r p. r.action ∷ p;
  signer = some (record { sign = λ h. "s"; check = λ h s. s == "s" });
  redact = λ r. r;
  recode = λ r. r;
  task = "t1";
}

abbrev act : String → Record
act name = row Record.execution "agent" name null Record.allow ""

abbrev fine : Disk
fine = record {
  open_file = true;
  lock = true;
  encode = true;
  stat = true;
  write = true;
  truncate = true;
}

-- Two handles take turns; one write fails and is rolled back.
abbrev calls : List Call
calls =
    open_ledger 0
    ∷ write_row 0 fine 5 (act "a")
    ∷ open_ledger 1
    ∷ write_row 0 fine 6 (act "b")
    ∷ write_row 1 (record fine { write = false }) 7 (act "x")
    ∷ write_row 1 fine 8 (act "c")
    ∷ write_mark 0 stored
    ∷ write_row 0 fine 9 (act "d")
    ∷ []

setup-Relies : Relies setup
setup-Relies = record { seq_kept = λ r. refl; accepted = λ h. refl }

whole : (run setup (fresh_world setup) calls).file.torn ≡ false
unfolding run step append refresh_tail tail_of new_entry write_entry flush_head
whole = refl

kept : (r : Record) → Survives setup r
kept r l now = refl

calls-Survive : All (CallSurvives setup) calls
calls-Survive = (
  tt,
  (
    kept (act "a"),
    (tt, (kept (act "b"), (kept (act "x"), (kept (act "c"), (tt, (kept (act "d"), tt)))))),
  ),
)

verify-run_example :
    (let f = (run setup (fresh_world setup) calls).file in verify setup f ≡ ok (length f.entries))
verify-run_example = verify-run setup setup-Relies calls calls-Survive whole

test_rows : length (run setup (fresh_world setup) calls).file.entries ≡ 4
unfolding run step append refresh_tail tail_of new_entry write_entry flush_head
test_rows = refl

abbrev one : String → Entry Digest
one why = record {
  body = record (act "a") { seq = 1; reason = why };
  prev_hash = [];
  this_hash = "a" ∷ [];
  sig = "s";
}

abbrev two : Entry Digest
two = record {
  body = record (act "b") { seq = 2 };
  prev_hash = "a" ∷ [];
  this_hash = "b" ∷ "a" ∷ [];
  sig = "s";
}

abbrev file : String → File Digest
file why = record { entries = one why ∷ two ∷ []; torn = false; head = some (2, "b" ∷ "a" ∷ []) }

fine-a : verify setup (file "x") ≡ ok 2
unfolding verify replay
fine-a = refl

fine-b : verify setup (file "y") ≡ ok 2
unfolding verify replay
fine-b = refl

hash-covers :
    (r s : Record) (p q : Digest)
    → setup.hash r p ≡ setup.hash s q
    → (r.action ≡ s.action) × (p ≡ q)
hash-covers r s p q h = (cc h, cc h)

verify-injective_example :
    views (λ r. r.action) (file "x").entries ≡ views (λ r. r.action) (file "y").entries
verify-injective_example =
    verify-injective setup (λ r. r.action) hash-covers (file "x") (file "y") 2 ("b" ∷ "a" ∷ []) refl
      refl fine-a fine-b

test_cut : verify setup (record (file "x") { entries = one "x" ∷ [] }) ≡ err truncated
unfolding verify replay
test_cut = refl

test_changed :
    verify setup (record (file "x") { entries = record (one "x") { body = act "z" } ∷ two ∷ [] })
    ≡ err tampered
unfolding verify replay
test_changed = refl
