-- ===== src/Artifact/Release.antt =====
-- internal/artifact/gate.go: what is released.
use pvm.Prelude.{
  String, ◌≡◌, refl, sym, subst, ◌∙◌, ◌⊎◌, inl, inr, Bool, true, false, Option, none, some, List,
  [], ◌∷◌, ◌++◌, text_comparable, Result, err, All,
}
use pvm.Prelude.Dict.{Dict, get}
use pvm.Audit.Record.{Record, allow}
use pvm.Artifact.Gate.{
  Bundle, Verdict, Verifier, Gate, is_advisory, judged, run_verifiers, gate_row, recorded, opening,
  verify, Error, rejected, ReleaseHook, run_release, decided, settled, submit, hash_bundle,
}

-- A check that holds, or whose failures are only advice.
abbrev pub Clears : Dict String Bool → Bundle → Verifier → Type 0
Clears advisory b ver = ((ver.verify b).0 ≡ true) ⊎ (is_advisory (get advisory ver.name) ≡ true)

judged_lem :
    (advisory : Bool) (ver : Verifier) (v : Verdict) (r : Bool × String)
    → (judged advisory ver v r).passed ≡ true
    → (v.passed ≡ true) × ((r.0 ≡ true) ⊎ (advisory ≡ true))
judged_lem advisory ver v (true, reason) h = (h, inl refl)
judged_lem true ver v (false, reason) h = (h, inr refl)
judged_lem false ver v (false, reason) h = cc

judged-hash :
    (advisory : Bool) (ver : Verifier) (v : Verdict) (r : Bool × String)
    → (judged advisory ver v r).hash ≡ v.hash
judged-hash advisory ver v (true, reason) = refl
judged-hash true ver v (false, reason) = refl
judged-hash false ver v (false, reason) = refl

run_verifiers_lem :
    (advisory : Dict String Bool) (b : Bundle) (vers : List Verifier) (v : Verdict)
    → (run_verifiers advisory b vers v).passed ≡ true
    → (v.passed ≡ true) × All (Clears advisory b) vers
unfolding run_verifiers
run_verifiers_lem advisory b [] v h = (h, tt)
run_verifiers_lem advisory b (ver ∷ vers) v h =
    let (p, rest) =
      run_verifiers_lem advisory b vers
        (judged (is_advisory (get advisory ver.name)) ver v (ver.verify b)) h in
    let (q, clear) = judged_lem (is_advisory (get advisory ver.name)) ver v (ver.verify b) p in
    (q, (clear, rest))

run_verifiers-hash :
    (advisory : Dict String Bool) (b : Bundle) (vers : List Verifier) (v : Verdict)
    → (run_verifiers advisory b vers v).hash ≡ v.hash
unfolding run_verifiers
run_verifiers-hash advisory b [] v = refl
run_verifiers-hash advisory b (ver ∷ vers) v =
    run_verifiers-hash advisory b vers
      (judged (is_advisory (get advisory ver.name)) ver v (ver.verify b))
    ∙ judged-hash (is_advisory (get advisory ver.name)) ver v (ver.verify b)

-- The row of a verdict is in the ledger, if there is one.
abbrev pub Logged : Bundle → Verdict → Option (List Record) → Option (List Record) → Type 0
Logged b v none after = after ≡ none
Logged b v (some rows) after = after ≡ some (rows ++ gate_row b v ∷ [])

-- What stands behind a verdict that lets a bundle pass.
pub record IsCleared (digest : String → String) (g : Gate) (b : Bundle) (after : Gate) (v : Verdict)
    : Type 0 where
  pub clear : All (Clears g.advisory b) g.verifiers
  pub bound : v.hash ≡ hash_bundle digest b
  pub logged : Logged b v g.ledger after.ledger
  pub allowed : (gate_row b v).decision ≡ allow

recorded-IsCleared :
    (digest : String → String) (g : Gate) (b : Bundle) (v : Verdict) (ledger : Option (List Record))
    (error : Option String)
    → g.ledger ≡ ledger
    → (v.passed ≡ true → All (Clears g.advisory b) g.verifiers)
    → v.hash ≡ hash_bundle digest b
    → (recorded b g v ledger error).1.passed ≡ true
    → IsCleared digest g b (recorded b g v ledger error).0 (recorded b g v ledger error).1
unfolding gate_row
recorded-IsCleared digest g b v none error q c h p = record {
  clear = c p;
  bound = h;
  logged = subst (λ l. Logged b v l g.ledger) (sym q) q;
  allowed = rw p refl;
}
recorded-IsCleared digest g b v (some rows) none q c h p = record {
  clear = c p;
  bound = h;
  logged = subst (λ l. Logged b v l (some (rows ++ gate_row b v ∷ []))) (sym q) refl;
  allowed = rw p refl;
}
recorded-IsCleared digest g b v (some rows) (some x) q c h p = cc

verify-IsCleared :
    (digest : String → String) (error : Option String) (g : Gate) (b : Bundle)
    → (verify digest error g b).1.passed ≡ true
    → IsCleared digest g b (verify digest error g b).0 (verify digest error g b).1
unfolding verify
verify-IsCleared digest error g b p =
    let v = run_verifiers g.advisory b g.verifiers (opening digest b) in
    recorded-IsCleared digest g b v g.ledger error refl
      (λ q. (run_verifiers_lem g.advisory b g.verifiers (opening digest b) q).1)
      (run_verifiers-hash g.advisory b g.verifiers (opening digest b)) p

-- The two ways that a submission goes.
abbrev pub IsGated {ℓ} :
    {S : Type ℓ}
    → (String → String)
    → ReleaseHook S
    → Gate
    → Bundle
    → S
    → Gate
    → S × Result Error (Unit {0})
    → Type ℓ
IsGated digest hook g b w after (w', r) =
    ((reasons : List String) × (r ≡ err (rejected reasons)) × (w' ≡ w))
    ⊎ ((v : Verdict) × IsCleared digest g b after v × ((w', r) ≡ run_release hook b v w))

decided-IsGated {ℓ} :
    {S : Type ℓ} (digest : String → String) (hook : ReleaseHook S) (g : Gate) (b : Bundle) (w : S)
    (after : Gate) (v : Verdict) (passed : Bool)
    → (passed ≡ true → IsCleared digest g b after v)
    → IsGated digest hook g b w after (decided passed hook b v w)
decided-IsGated digest hook g b w after v true c = inr (v, c refl, refl)
decided-IsGated digest hook g b w after v false c = inl (v.reasons, refl, refl)

settled-IsGated {ℓ} :
    {S : Type ℓ} (digest : String → String) (hook : ReleaseHook S) (g : Gate) (b : Bundle) (w : S)
    (p : Gate × Verdict)
    → (p.1.passed ≡ true → IsCleared digest g b p.0 p.1)
    → IsGated digest hook g b w (settled hook b w p).0 (settled hook b w p).1
settled-IsGated digest hook g b w (after, v) c =
    decided-IsGated digest hook g b w after v v.passed c

-- `Submit` either rejects a bundle and leaves the world as it was, or runs `Release` on a verdict for which
-- every verifier of the gate held or is advisory, whose hash is that of the bundle, and whose row, which
-- says allow, the ledger took, if there is one; then the result is that of `Release`.
pub submit-IsGated {ℓ} :
    {S : Type ℓ} (digest : String → String) (error : Option String) (hook : ReleaseHook S)
    (g : Gate) (b : Bundle) (w : S)
    → IsGated digest hook g b w
        (submit digest error hook g b w).0
        (submit digest error hook g b w).1
unfolding submit
submit-IsGated digest error hook g b w =
    settled-IsGated digest hook g b w (verify digest error g b) (verify-IsCleared digest error g b)
