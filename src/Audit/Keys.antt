-- ===== src/Audit/Keys.antt =====
-- The keys that internal/audit/redact.go keeps, told apart from how it searches them.
use pvm.Prelude.{
  ℕ, ◌+◌, String, Bool, true, false, ◌&&◌, ◌≡◌, ◌⊎◌, List, [], ◌∷◌, ◌++◌, leb, nat_comparable,
  codes, arith, subst, sym, refl, All,
}
use pvm.Audit.Redact.{
  lower, lower_code, starts_with, contains, avoids, secret_key_denylist, is_safe_summary_key,
}

-- A code point that stands for the lower-case letter `d`: itself, its capital, or a letter of another
-- alphabet that lowers to it.
abbrev pub Folds : ℕ → ℕ → Type 0
Folds c d = (c ≡ d) ⊎ (c + 32 ≡ d) ⊎ ((c ≡ 304) × (d ≡ 105)) ⊎ ((c ≡ 8490) × (d ≡ 107))

-- A text that is a word up to case.
abbrev pub Spells : List ℕ → List ℕ → Type 0
Spells [] [] = Unit
Spells (c ∷ cs) (d ∷ ds) = Folds c d × Spells cs ds
Spells _ _ = ⊥

-- A word stands nowhere in a text.
abbrev pub IsFreeOf : List ℕ → List ℕ → Type 0
IsFreeOf k w = (before mid behind : List ℕ) → k ≡ before ++ (mid ++ behind) → Spells mid w → ⊥

-- A key with none of the denied words, in any case.
abbrev pub IsSafeKey : String → Type 0
IsSafeKey k =
    All (λ (w : String). IsFreeOf (codes k) (codes w))
      ("token" ∷ "secret" ∷ "password" ∷ "passwd" ∷ "key" ∷ "credential" ∷ "cookie" ∷ "auth" ∷ [])

abbrev all_lower : List ℕ → Bool
all_lower [] = true
all_lower (d ∷ ds) = let rest = all_lower ds in leb b'a' d && leb d b'z' && rest

lower_code-Folds : (c d : ℕ) → Folds c d → (leb b'a' d && leb d b'z') ≡ true → lower_code c ≡ d
lower_code-Folds c d f h = ground (arith, f, h)

starts_with-Spells :
    (mid behind w : List ℕ)
    → all_lower w ≡ true
    → Spells mid w
    → starts_with (lower (mid ++ behind)) w ≡ true
starts_with-Spells mid behind [] h s = ground arith
starts_with-Spells [] behind (d ∷ ds) h s = absurd s
starts_with-Spells (c ∷ cs) behind (d ∷ ds) h s =
    ground (arith, lower_code-Folds c d s.0, starts_with-Spells cs behind ds, s.1, h)

contains-starts :
    (before rest w : List ℕ)
    → starts_with (lower rest) w ≡ true
    → contains (lower (before ++ rest)) w ≡ true
unfolding contains
contains-starts [] [] w h = h
contains-starts [] (c ∷ cs) w h = ground (arith, h)
contains-starts (b ∷ bs) rest w h = ground (arith, contains-starts bs rest w h)

absent-IsFreeOf : (k w : List ℕ) → all_lower w ≡ true → contains (lower k) w ≡ false → IsFreeOf k w
absent-IsFreeOf k w h n before mid behind q s =
    let found = contains-starts before (mid ++ behind) w (starts_with-Spells mid behind w h s) in
    let here : contains (lower k) w ≡ true =
      subst (λ (x : List ℕ). contains (lower x) w ≡ true) (sym q) found in
    cc

avoids-IsFreeOf :
    (k : List ℕ) (ws : List String)
    → All (λ (w : String). all_lower (codes w) ≡ true) ws
    → avoids (lower k) ws ≡ true
    → All (λ (w : String). IsFreeOf k (codes w)) ws
avoids-IsFreeOf k [] l h = tt
avoids-IsFreeOf k (w ∷ ws) l h = (
  absent-IsFreeOf k (codes w) l.0 (ground (arith, h)),
  avoids-IsFreeOf k ws l.1 (ground (arith, h)),
)

denied_words : All (λ (w : String). all_lower (codes w) ≡ true) secret_key_denylist
denied_words = (refl, (refl, (refl, (refl, (refl, (refl, (refl, (refl, tt))))))))

pub is_safe_summary_key-IsSafeKey : (k : String) → is_safe_summary_key k ≡ true → IsSafeKey k
unfolding is_safe_summary_key
is_safe_summary_key-IsSafeKey k h = avoids-IsFreeOf (codes k) secret_key_denylist denied_words h
