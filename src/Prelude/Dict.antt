-- ===== src/Prelude/Dict.antt =====
-- Go's `map[K]V` as an association list. Go iterates over a map in no fixed order: here the order
-- is the list's, and what is proved holds for every list.
use mathlib.Core.Path.{◌≡◌, refl}
use mathlib.Core.Path.{◌≡◌, refl, ap, subst, ◌∙◌}
use mathlib.Core.Logic.{◌⊎◌, ◌≢◌, inl, inr}
use mathlib.Core.Bool.{Bool, true, false}
use mathlib.Core.Option
use mathlib.Core.List.{List, [], ◌∷◌}
use mathlib.Core.Option.{Option, none, some, some-injective}
use native.Mathlib.Omega.{arith}
use pvm.Prelude.Tests.{Comparable, ◌==◌, beq_refl, beq_ne, if◌then◌else◌, Bool-cases}

abbrev pub Dict {ℓ κ} : Type ℓ → Type κ → Type (ℓ ⊔ κ)
Dict K V = List (K × V)

module _ {ℓ} {K : Type ℓ} ⦃e : Comparable K⦄ where
  beq_flip : (j k : K) → (j == k) ≡ false → (k == j) ≡ false
  beq_flip j k h = ground (arith, e.equal_iff j k, e.equal_iff k j)

module _ {ℓ κ} {K : Type ℓ} {V : Type κ} ⦃e : Comparable K⦄ where
  -- v, ok := m[k]
  unfoldable pub get : Dict K V → K → Option V
  get [] k = none
  get ((j, v) ∷ m) k = if j == k then some v else get m k

  -- m[k] = v
  unfoldable pub put : Dict K V → K → V → Dict K V
  put [] k v = (k, v) ∷ []
  put ((j, w) ∷ m) k v = let rest = put m k v in if j == k then (k, v) ∷ m else (j, w) ∷ rest

  -- delete(m, k)
  unfoldable pub del : Dict K V → K → Dict K V
  del [] k = []
  del ((j, v) ∷ m) k = let rest = del m k in if j == k then rest else (j, v) ∷ rest

  pub get-put :
      (m : Dict K V) (k j : K) (v : V) → get (put m k v) j ≡ (if k == j then some v else get m j)
  unfolding get put
  get-put [] k j v = refl
  get-put ((i, w) ∷ m) k j v =
      ground (arith, e.equal_iff k j, e.equal_iff i k, e.equal_iff i j, get-put m k j v)

  pub get-del : (m : Dict K V) (k j : K) → get (del m k) j ≡ (if k == j then none else get m j)
  unfolding get del
  get-del [] k j = ground arith
  get-del ((i, w) ∷ m) k j =
      ground (arith, e.equal_iff k j, e.equal_iff i k, e.equal_iff i j, get-del m k j)

  -- No key twice, as in a Go map.
  abbrev pub Distinct : Dict K V → Type (ℓ ⊔ κ)
  Distinct [] = Unit
  Distinct ((k, v) ∷ m) = (get m k ≡ none) × Distinct m

  -- `for k, v := range m` up to the first value that passes a test.
  unfoldable pub find : (V → Bool) → Dict K V → Option (K × V)
  find p [] = none
  find p ((k, v) ∷ m) = if p v then some (k, v) else find p m

  -- A loop over `m` that replaces every value.
  unfoldable pub map_values : (K → V → V) → Dict K V → Dict K V
  map_values f [] = []
  map_values f ((k, v) ∷ m) = (k, f k v) ∷ map_values f m

  pub put-Distinct : (m : Dict K V) (k : K) (v : V) → Distinct m → Distinct (put m k v)
  unfolding put
  put-Distinct [] k v d = (unfold get in refl, tt)
  put-Distinct ((j, w) ∷ m) k v d = elim (Bool-cases (j == k)) [
    | inl same ↦ rw same (subst (λ i. get m i ≡ none) ((e.equal_iff j k).0 same) d.0, d.1)
    | inr other ↦ rw other (rw get-put (rw (beq_flip j k other) d.0), put-Distinct m k v d.1)
  ]

  pub del-Distinct : (m : Dict K V) (k : K) → Distinct m → Distinct (del m k)
  unfolding del
  del-Distinct [] k d = tt
  del-Distinct ((j, w) ∷ m) k d = elim (Bool-cases (j == k)) [
    | inl same ↦ rw same (del-Distinct m k d.1)
    | inr other ↦ rw other (rw get-del (rw (beq_flip j k other) d.0), del-Distinct m k d.1)
  ]

  pub get-map_values :
      (f : K → V → V) (m : Dict K V) (k : K) → get (map_values f m) k ≡ Option.map (f k) (get m k)
  unfolding get map_values
  get-map_values f [] k = refl
  get-map_values f ((j, v) ∷ m) k = elim (Bool-cases (j == k)) [
    | inl same ↦ rw same (ap (λ i. some (f i v)) ((e.equal_iff j k).0 same))
    | inr other ↦ rw other (get-map_values f m k)
  ]

  pub map_values-Distinct : (f : K → V → V) (m : Dict K V) → Distinct m → Distinct (map_values f m)
  unfolding map_values
  map_values-Distinct f [] d = tt
  map_values-Distinct f ((j, v) ∷ m) d =
      (get-map_values f m j ∙ ap (Option.map (f j)) d.0, map_values-Distinct f m d.1)

  -- What the loop finds is an entry of the map, and passes the test.
  pub find-get :
      (p : V → Bool) (m : Dict K V) (k : K) (v : V)
      → Distinct m
      → find p m ≡ some (k, v)
      → (get m k ≡ some v) × (p v ≡ true)
  unfolding get find
  find-get p [] k v d h = cc
  find-get p ((j, w) ∷ m) k v d h = ground (arith, find-get p m k v d.1, e.equal_iff j k)

  -- When it finds none, no entry passes.
  pub find-none :
      (p : V → Bool) (m : Dict K V) (k : K) (v : V)
      → find p m ≡ none
      → get m k ≡ some v
      → p v ≡ false
  unfolding get find
  find-none p [] k v h g = cc
  find-none p ((j, w) ∷ m) k v h g = ground (arith, find-none p m k v)

  pub put-put : (m : Dict K V) (k : K) (v w : V) → put (put m k v) k w ≡ put m k w
  unfolding put
  put-put [] k v w = rw beq_refl
  put-put ((j, x) ∷ m) k v w = ground (arith, put-put m k v w, beq_refl k)

  pub put_self : (m : Dict K V) (k : K) (v : V) → get m k ≡ some v → put m k v ≡ m
  unfolding get put
  put_self [] k v g = cc
  put_self ((j, w) ∷ m) k v g = ground (arith, put_self m k v, e.equal_iff j k)

  pub get-put_self : (m : Dict K V) (k : K) (v : V) → get (put m k v) k ≡ some v
  get-put_self m k v = rw (get-put, beq_refl)

  -- An entry after an assignment is the one assigned, or was there before.
  pub get-put_cases :
      (m : Dict K V) (k j : K) (v w : V)
      → get (put m k v) j ≡ some w
      → ((k ≡ j) × (v ≡ w)) ⊎ (get m j ≡ some w)
  get-put_cases m k j v w h = elim (Bool-cases (k == j)) [
    | inl same ↦ inl ((e.equal_iff k j).0 same, cc (rw (get-put, same) at h))
    | inr other ↦ inr (rw (get-put, other) at h)
  ]

  pub get-put_ne : (m : Dict K V) (k j : K) (v : V) → k ≢ j → get (put m k v) j ≡ get m j
  get-put_ne m k j v n = rw (get-put, beq_ne k j n) refl
