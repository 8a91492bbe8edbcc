-- ===== src/Audit/Verified.antt =====
-- `Verify` of internal/audit/ledger.go on a ledger that was only written by `Append`.
use pvm.Prelude.{
  ℕ, ◌≡◌, refl, ap, ◌∙◌, false, Option, none, some, List, [], ◌∷◌, nat_comparable, Comparable,
  length, arith, ok, All,
}
use pvm.Audit.Ledger.{Entry, File, Setup, tail_of, check_head, verify}
use pvm.Audit.Chain.{replay-IsChained}
use pvm.Audit.Journal.{IsMark, IsSound, Relies}
use pvm.Audit.Writers.{World, Call, step, run, IsReady, CallSurvives, step-IsReady}

module _ {H : Type 0} (c : Setup H) where
  abbrev pub fresh_file : File H
  fresh_file = record { entries = []; torn = false; head = none }

  abbrev pub fresh_world : World H
  fresh_world = record {
    file = fresh_file;
    handles = λ i. record { last_hash = c.empty; seq = 0; read_offset = 0; head_pending = none };
  }

  run-IsReady :
      Relies c
      → (w : World H) (xs : List Call) → All (CallSurvives c) xs
      → IsReady c w
      → IsReady c (run c w xs)
  unfolding run
  run-IsReady y w [] v k = k
  run-IsReady y w (x ∷ xs) v k = run-IsReady y (step c w x) xs v.1 (step-IsReady c y w x v.0 k)

  fresh-IsReady : IsReady c fresh_world
  unfolding tail_of
  fresh-IsReady = ((tt, tt), λ j. (omega arith, refl, tt))

  module _ ⦃e : Comparable H⦄ where
    check_head-ok :
        (xs : List (Entry H)) (o : Option (ℕ × H))
        → IsMark c xs o
        → check_head o (length xs, (tail_of c.empty 0 xs).0) ≡ ok (length xs)
    check_head-ok xs none m = refl
    check_head-ok xs (some (s, h)) (k, q) =
        ground (arith, k, q, e.equal_iff (tail_of c.empty 0 xs).0 h)

    verify-IsSound :
        (f : File H) → IsSound c f → f.torn ≡ false → verify c f ≡ ok (length f.entries)
    unfolding verify
    verify-IsSound f (ch, m) whole =
        rw (replay-IsChained c c.empty 0 f.entries ch, whole)
          (ap (λ n. check_head f.head (n, (tail_of c.empty 0 f.entries).0)) (omega arith)
            ∙ check_head-ok f.entries f.head m)

    -- `Verify` never cries wolf: whatever the order in which any number of handles open the ledger,
    -- append rows and flush the head watermark, and wherever these calls fail, `Verify` then succeeds
    -- with the number of rows in the file, unless a failed write could not be rolled back. It relies on
    -- a redactor that leaves the number of a row alone, a signer that accepts what it signed, and rows that
    -- decode from their JSON to what they were, which text that is no UTF-8 and integers above 2^53 do not.
    pub verify-run :
        Relies c
        → (calls : List Call) → All (CallSurvives c) calls
        → (run c fresh_world calls).file.torn ≡ false
        → (let f = (run c fresh_world calls).file in verify c f ≡ ok (length f.entries))
    verify-run y calls v whole =
        verify-IsSound (run c fresh_world calls).file
          (run-IsReady y fresh_world calls v fresh-IsReady).0 whole
