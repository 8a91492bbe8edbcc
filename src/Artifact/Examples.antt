-- ===== src/Artifact/Examples.antt =====
-- A bundle, a gate with an advisory check, and one use of each theorem about them.
use pvm.Prelude.{
  String, ◌≡◌, refl, true, false, none, some, List, [], ◌∷◌, ◌++◌, ◌==◌, text_comparable, ok, sym,
  eq_iff, Bool-cases, inl, inr,
}
use pvm.Prelude.Dict.{Dict, get, put}
use pvm.Artifact.Gate.{
  Bundle, Verifier, Gate, hash_bundle, sort_strings, new_gate, add_verifier, set_advisory, submit,
  verify, run_verifiers, gate_row, secret_scan, hash_verifier, ReleaseHook,
}
use pvm.Artifact.Order.{swap}
use pvm.Artifact.Hash.{hash_bundle-Reordered, hash_bundle-moved}
use pvm.Artifact.Release.{IsGated, submit-IsGated}

abbrev digest : String → String
digest s = s

abbrev bundle : Bundle
bundle = record {
  task_id = "t";
  diff = "d";
  build_log = "l";
  trace = "ran" ∷ [];
  files = ("b", "2") ∷ ("a", "1") ∷ [];
  claimed_ok = true;
}

abbrev refuses : Verifier
refuses = record { name = "lint"; verify = λ b. (false, "style") }

abbrev gate : Gate
gate = set_advisory "lint" (add_verifier (refuses ∷ []) (new_gate (λ s. none) (some []) []))

-- The release writes down the hash.
abbrev hook : ReleaseHook (List String)
hook = some (λ b v w. (w ++ v.hash ∷ [], ok tt))

test_sort : sort_strings ("b" ∷ "c" ∷ "a" ∷ []) ≡ "a" ∷ "b" ∷ "c" ∷ []
unfolding sort_strings
test_sort = refl

test_released :
    (submit digest none hook gate bundle []).1.0
    ≡ "task=t|claimed=true|diff=d|build=l|trace=ran|a=1|b=2" ∷ []
unfolding submit verify run_verifiers gate_row hash_bundle sort_strings new_gate add_verifier
    set_advisory secret_scan hash_verifier get put
test_released = refl

-- Without the audit row nothing is released.
test_unlogged : (submit digest (some "disk full") hook gate bundle []).1.0 ≡ []
unfolding submit verify run_verifiers gate_row hash_bundle sort_strings new_gate add_verifier
    set_advisory secret_scan hash_verifier get put
test_unlogged = refl

submit-IsGated_example :
    IsGated digest hook gate bundle []
      (submit digest none hook gate bundle []).0
      (submit digest none hook gate bundle []).1
submit-IsGated_example = submit-IsGated digest none hook gate bundle []

abbrev turned : Dict String String
turned = ("a", "1") ∷ ("b", "2") ∷ []

same_files : (n : String) → get bundle.files n ≡ get turned n
unfolding get
same_files n = elim (Bool-cases ("b" == n)) [
  | inl is_b ↦ rw (is_b, sym ((eq_iff "b" n).0 is_b)) refl
  | inr not_b ↦ rw not_b refl
]

hash_bundle-Reordered_example :
    hash_bundle digest bundle ≡ hash_bundle digest (record bundle { files = turned })
hash_bundle-Reordered_example = hash_bundle-Reordered digest bundle turned swap same_files

hash_bundle-moved_example :
    hash_bundle digest (record bundle { trace = "ran" ∷ "tested" ∷ []; files = [] })
    ≡ hash_bundle digest (record bundle { files = ("trace", "tested") ∷ [] })
hash_bundle-moved_example = hash_bundle-moved digest bundle "tested"
