-- ===== src/Artifact/Gate.antt =====
-- internal/artifact/gate.go: the bundle and its hash, the verifiers, `NewGate`, `AddVerifier`, `SetAdvisory`,
-- `Verify`, `Submit`. `digest` is the hex text of SHA-256; the patterns for secrets are an argument.
use pvm.Prelude.{
  ℕ, codes, ltb, String, Bool, true, false, Option, none, some, List, [], ◌∷◌, ◌++◌, map,
  text_comparable, if◌then◌else◌, Result, ok, err, str_append,
}
use pvm.Prelude.Dict.{Dict, get, put}
use pvm.Json.{Items, obj, field, str, bool, arr, nil, cons, end}
use pvm.Audit.Record.{Record, row, release, allow, deny}

pub record Bundle : Type 0 where
  pub task_id : String
  pub diff : String
  pub build_log : String
  pub trace : List String
  pub files : Dict String String
  pub claimed_ok : Bool

pub record Verdict : Type 0 where
  pub passed : Bool
  pub hash : String
  pub reasons : List String
  pub step : Dict String String

-- A check: whether it holds, and else the reason.
pub record Verifier : Type 0 where
  pub name : String
  pub verify : Bundle → Bool × String

-- `ledger` is what `Append` took, `none` without one.
pub record Gate : Type 0 where
  pub verifiers : List Verifier
  pub advisory : Dict String Bool
  pub ledger : Option (List Record)

-- Lexicographic order on code points, which is Go's on the bytes of UTF-8.
abbrev pub gt_codes : List ℕ → List ℕ → Bool
gt_codes [] ys = false
gt_codes (x ∷ xs) [] = true
gt_codes (x ∷ xs) (y ∷ ys) =
    let rest = gt_codes xs ys in if ltb y x then true else if ltb x y then false else rest

-- `a > b`
abbrev pub above : String → String → Bool
above a b = gt_codes (codes a) (codes b)

-- The inner loop of `sortStrings`: the sorted part stands last name first.
abbrev pub sink : String → List String → List String
sink x [] = x ∷ []
sink x (y ∷ ys) = let rest = sink x ys in if above y x then y ∷ rest else x ∷ y ∷ ys

-- The outer loop, over the names that are left.
abbrev pub sunk : List String → List String → List String
sunk [] sorted = sorted
sunk (x ∷ xs) sorted = sunk xs (sink x sorted)

abbrev pub onto : List String → List String → List String
onto [] ys = ys
onto (x ∷ xs) ys = onto xs (x ∷ ys)

unfoldable pub sort_strings : List String → List String
sort_strings names = onto (sunk names []) []

abbrev pub hash_field : (String → String) → String → String → String
hash_field digest label content =
    str_append "|" (str_append label (str_append "=" (digest content)))

abbrev pub hash_trace : (String → String) → List String → String
hash_trace digest [] = ""
hash_trace digest (t ∷ ts) = str_append (hash_field digest "trace" t) (hash_trace digest ts)

abbrev pub or_blank : Option String → String
or_blank none = ""
or_blank (some s) = s

abbrev pub hash_files : (String → String) → Dict String String → List String → String
hash_files digest files [] = ""
hash_files digest files (n ∷ ns) =
    str_append (hash_field digest n (or_blank (get files n))) (hash_files digest files ns)

abbrev pub yes_no : Bool → String
yes_no true = "true"
yes_no false = "false"

-- The fields in front of the trace and the files.
abbrev pub preface : (String → String) → Bundle → String → String
preface digest b rest = str_append "task=" (
    str_append b.task_id (
      str_append "|claimed=" (
        str_append (yes_no b.claimed_ok) (
          str_append (hash_field digest "diff" b.diff)
            (str_append (hash_field digest "build" b.build_log) rest)))))

-- What is written into the hash.
abbrev pub canonical : (String → String) → Bundle → List String → String
canonical digest b names =
    preface digest b (str_append (hash_trace digest b.trace) (hash_files digest b.files names))

unfoldable pub hash_bundle : (String → String) → Bundle → String
unfolding sort_strings
hash_bundle digest b = digest (canonical digest b (sort_strings (map (λ f. f.0) b.files)))

unfoldable pub hash_verifier : Verifier
hash_verifier = record { name = "bind_hash"; verify = λ b. (true, "") }

-- `matched` gives the first pattern that a text matches.
abbrev scan_files : (String → Option String) → Dict String String → Bool × String
scan_files matched [] = (true, "")
scan_files matched ((name, content) ∷ files) = elim (matched content) [
  | some p ↦ (false, str_append "secret pattern in file " (str_append name (str_append ": " p)))
  | none ↦ scan_files matched files
]

abbrev corpus : String → List String → String
corpus text [] = text
corpus text (t ∷ ts) = corpus (str_append text (str_append "\n" t)) ts

unfoldable pub secret_scan : (String → Option String) → Verifier
secret_scan matched = record {
  name = "secret_scan";
  verify = λ b. elim (matched (corpus (str_append b.diff (str_append "\n" b.build_log)) b.trace)) [
    | some p ↦ (false, str_append "secret pattern matched: " p)
    | none ↦ scan_files matched b.files
  ];
}

unfoldable pub new_gate : (String → Option String) → Option (List Record) → List Verifier → Gate
unfolding hash_verifier secret_scan
new_gate matched ledger extra = record {
  verifiers = hash_verifier ∷ secret_scan matched ∷ extra;
  advisory = [];
  ledger = ledger;
}

unfoldable pub add_verifier : List Verifier → Gate → Gate
add_verifier vs g = record g { verifiers = g.verifiers ++ vs }

unfoldable pub set_advisory : String → Gate → Gate
set_advisory name g = record g { advisory = put g.advisory name true }

abbrev pub is_advisory : Option Bool → Bool
is_advisory none = false
is_advisory (some a) = a

abbrev pub judged : Bool → Verifier → Verdict → Bool × String → Verdict
judged advisory ver v (true, reason) = record v { step = put v.step ver.name "pass" }
judged true ver v (false, reason) = record v {
  step = put v.step ver.name (str_append "advisory: " reason);
}
judged false ver v (false, reason) = record v {
  step = put v.step ver.name (str_append "fail: " reason);
  passed = false;
  reasons = v.reasons ++ str_append ver.name (str_append ": " reason) ∷ [];
}

-- The loop over the verifiers.
unfoldable pub run_verifiers : Dict String Bool → Bundle → List Verifier → Verdict → Verdict
run_verifiers advisory b [] v = v
run_verifiers advisory b (ver ∷ vers) v =
    run_verifiers advisory b vers
      (judged (is_advisory (get advisory ver.name)) ver v (ver.verify b))

-- strings.Join with "; "
abbrev join : List String → String
join [] = ""
join (x ∷ []) = x
join (x ∷ y ∷ ys) = str_append x (str_append "; " (join (y ∷ ys)))

abbrev texts : List String → Items
texts [] = nil
texts (s ∷ ss) = cons (str s) (texts ss)

unfoldable pub gate_row : Bundle → Verdict → Record
gate_row b v =
    row release b.task_id "artifact_gate"
      (obj (
        field "hash" (str v.hash) (
          field "claimed_ok" (bool b.claimed_ok)
            (field "files" (arr (texts (map (λ f. f.0) b.files))) end))))
      (if v.passed then allow else deny) (join v.reasons)

-- `error` is what `Append` returns, `none` when it takes the row.
abbrev pub recorded :
    Bundle → Gate → Verdict → Option (List Record) → Option String → Gate × Verdict
recorded b g v none error = (g, v)
recorded b g v (some rows) none = (record g { ledger = some (rows ++ gate_row b v ∷ []) }, v)
recorded b g v (some rows) (some x) = (
  g,
  record v {
    passed = false;
    reasons = v.reasons ++ str_append "audit_ledger: " x ∷ [];
    step = put v.step "audit_ledger" (str_append "fail: " x);
  },
)

abbrev pub opening : (String → String) → Bundle → Verdict
opening digest b = record { passed = true; hash = hash_bundle digest b; reasons = []; step = [] }

unfoldable pub verify : (String → String) → Option String → Gate → Bundle → Gate × Verdict
unfolding hash_bundle run_verifiers gate_row
verify digest error g b =
    recorded b g (run_verifiers g.advisory b g.verifiers (opening digest b)) g.ledger error

pub data Error : Type 0 where
  rejected : List String → Error
  release_failed : String → Error

-- The real-world effect, on the state of the world outside.
abbrev pub ReleaseHook {ℓ} : Type ℓ → Type ℓ
ReleaseHook S = Option (Bundle → Verdict → S → S × Result String (Unit {0}))

abbrev pub released {ℓ} : {S : Type ℓ} → S × Result String (Unit {0}) → S × Result Error (Unit {0})
released (w, ok _) = (w, ok tt)
released (w, err x) = (w, err (release_failed x))

abbrev pub run_release {ℓ} :
    {S : Type ℓ} → ReleaseHook S → Bundle → Verdict → S → S × Result Error (Unit {0})
run_release none b v w = (w, ok tt)
run_release (some f) b v w = released (f b v w)

abbrev pub decided {ℓ} :
    {S : Type ℓ} → Bool → ReleaseHook S → Bundle → Verdict → S → S × Result Error (Unit {0})
decided true hook b v w = run_release hook b v w
decided false hook b v w = (w, err (rejected v.reasons))

abbrev pub settled {ℓ} :
    {S : Type ℓ}
    → ReleaseHook S
    → Bundle
    → S
    → Gate × Verdict
    → Gate × (S × Result Error (Unit {0}))
settled hook b w (g, v) = (g, decided v.passed hook b v w)

unfoldable pub submit {ℓ} :
    {S : Type ℓ}
    → (String → String)
    → Option String
    → ReleaseHook S
    → Gate
    → Bundle
    → S
    → Gate × (S × Result Error (Unit {0}))
unfolding verify
submit digest error hook g b w = settled hook b w (verify digest error g b)
