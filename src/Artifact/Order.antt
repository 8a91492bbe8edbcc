-- ===== src/Artifact/Order.antt =====
-- internal/artifact/gate.go: the order that `sortStrings` sorts by, and why the order in which Go gives the
-- entries of a map does not matter to it.
use Prim.Native.Char.{Char, code}
use text.Mathlib.TextEquality.{codes_equal}
use pvm.Prelude.{
  ℕ, codes, String, ◌≡◌, refl, ap, ◌∙◌, true, false, List, arith, nat_comparable, [], ◌∷◌,
}
use pvm.Artifact.Gate.{gt_codes, above, sink, sunk, onto, sort_strings}

-- Two orders of the same entries.
pub data Reordered {ℓ} {A : Type ℓ} : List A → List A → Type ℓ where
  done : Reordered [] []
  keep : {x : A} {xs ys : List A} → Reordered xs ys → Reordered (x ∷ xs) (x ∷ ys)
  swap : {x y : A} {xs : List A} → Reordered (x ∷ y ∷ xs) (y ∷ x ∷ xs)
  join : {xs ys zs : List A} → Reordered xs ys → Reordered ys zs → Reordered xs zs

gt_codes_asym : (xs ys : List ℕ) → gt_codes xs ys ≡ true → gt_codes ys xs ≡ false
gt_codes_asym [] ys h = cc
gt_codes_asym (x ∷ xs) [] h = refl
gt_codes_asym (x ∷ xs) (y ∷ ys) h = ground (arith, gt_codes_asym xs ys)

gt_codes_trans :
    (xs ys zs : List ℕ) → gt_codes xs ys ≡ true → gt_codes ys zs ≡ true → gt_codes xs zs ≡ true
gt_codes_trans [] ys zs h k = cc
gt_codes_trans (x ∷ xs) [] zs h k = cc
gt_codes_trans (x ∷ xs) (y ∷ ys) [] h k = refl
gt_codes_trans (x ∷ xs) (y ∷ ys) (z ∷ zs) h k = ground (arith, gt_codes_trans xs ys zs)

gt_codes_total : (xs ys : List ℕ) → gt_codes xs ys ≡ false → gt_codes ys xs ≡ false → xs ≡ ys
gt_codes_total [] [] h k = refl
gt_codes_total [] (y ∷ ys) h k = cc
gt_codes_total (x ∷ xs) [] h k = cc
gt_codes_total (x ∷ xs) (y ∷ ys) h k = ground (arith, gt_codes_total xs ys)

code-injective : (c d : Char) → code c ≡ code d → c ≡ d
code-injective c d h = codes_equal c d (ground arith)

codes-injective : (s t : String) → codes s ≡ codes t → s ≡ t
codes-injective String.[] String.[] h = refl
codes-injective String.[] (String.◌∷◌ d t) h = cc
codes-injective (String.◌∷◌ c s) String.[] h = cc
codes-injective (String.◌∷◌ c s) (String.◌∷◌ d t) h =
    same_text (code-injective c d (ground arith)) (codes-injective s t (ground arith))
  where
    same_text : c ≡ d → s ≡ t → String.◌∷◌ c s ≡ String.◌∷◌ d t
    same_text p q = cc

above_total : (a b : String) → above a b ≡ false → above b a ≡ false → a ≡ b
above_total a b h k = codes-injective a b (gt_codes_total (codes a) (codes b) h k)

-- The order in which two names are sorted in does not matter.
sink_comm : (x y : String) (l : List String) → sink x (sink y l) ≡ sink y (sink x l)
sink_comm x y [] =
    ground
      (arith, above_total x y, gt_codes_asym (codes x) (codes y), gt_codes_asym (codes y) (codes x))
sink_comm x y (z ∷ l) = ground (
  arith,
  sink_comm x y l,
  above_total x y,
  gt_codes_asym (codes x) (codes y),
  gt_codes_asym (codes y) (codes x),
  gt_codes_trans (codes z) (codes x) (codes y),
  gt_codes_trans (codes z) (codes y) (codes x),
  gt_codes_trans (codes y) (codes x) (codes z),
)

sunk-Reordered : (xs ys : List String) (l : List String) → Reordered xs ys → sunk xs l ≡ sunk ys l
sunk-Reordered _ _ l done = refl
sunk-Reordered _ _ l (keep {x} {xs} {ys} r) = sunk-Reordered xs ys (sink x l) r
sunk-Reordered _ _ l (swap {x} {y} {xs}) = ap (sunk xs) (sink_comm y x l)
sunk-Reordered _ _ l (join {xs} {ys} {zs} r q) = sunk-Reordered xs ys l r ∙ sunk-Reordered ys zs l q

pub sort_strings-Reordered :
    (xs ys : List String) → Reordered xs ys → sort_strings xs ≡ sort_strings ys
unfolding sort_strings
sort_strings-Reordered xs ys r = ap (λ l. onto l []) (sunk-Reordered xs ys [] r)
