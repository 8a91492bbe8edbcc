-- ===== src/Pool/Tally.antt =====
-- A counter of internal/pool/manager.go against the sandboxes of the pool: for every tenant it is the
-- sum over the sandboxes that the tenant holds.
use pvm.Prelude.{
  ℕ, ◌+◌, String, ◌≡◌, refl, ap, subst, inl, inr, Bool, true, false, ◌&&◌, Option, none, some, List,
  [], ◌∷◌, ◌++◌, arith, ◌==◌, text_comparable, eq_iff, if◌then◌else◌, Bool-cases,
}
use pvm.Prelude.Dict.{Dict}
use pvm.Pool.Types.{SandboxState, claimed, paused, Sandbox, Split, prepend, split_first, count}
use pvm.Pool.Counters.{raise, lower, count-raise, count-lower}

-- Claimed, or suspended by its tenant.
abbrev pub held : SandboxState → Bool
held claimed = true
held paused = true
held _ = false

abbrev pub share : (Sandbox → ℕ) → String → Sandbox → ℕ
share f t s = if held s.state && s.tenant == t then f s else 0

unfoldable pub total : (Sandbox → ℕ) → String → List Sandbox → ℕ
total f t [] = 0
total f t (s ∷ ss) = share f t s + total f t ss

pub record Tally (d : Dict String ℕ) (f : Sandbox → ℕ) (pool : List Sandbox) : Type 0 where
  pub at : (t : String) → count d t ≡ total f t pool

module _ (f : Sandbox → ℕ) where
  total-append :
      (t : String) (xs ys : List Sandbox) → total f t (xs ++ ys) ≡ total f t xs + total f t ys
  unfolding total
  total-append t [] ys = omega arith
  total-append t (s ∷ xs) ys = omega (arith, total-append t xs ys)

  pub total-insert :
      (t : String) (xs ys : List Sandbox) (s : Sandbox)
      → total f t (xs ++ s ∷ ys) ≡ share f t s + total f t (xs ++ ys)
  unfolding total
  total-insert t xs ys s = omega (arith, total-append t xs (s ∷ ys), total-append t xs ys)

  module _ (d : Dict String ℕ) (before behind : List Sandbox) (s : Sandbox) where
    -- A sandbox that nobody holds does not count.
    pub Tally-idle :
        held s.state ≡ false → Tally d f (before ++ behind) → Tally d f (before ++ s ∷ behind)
    Tally-idle h y = record { at = λ t. ground (arith, y.at t, total-insert t before behind s) }

    pub Tally-skip :
        held s.state ≡ false → Tally d f (before ++ s ∷ behind) → Tally d f (before ++ behind)
    Tally-skip h y = record { at = λ t. ground (arith, y.at t, total-insert t before behind s) }

    pub Tally-raise :
        (t : String) (n : ℕ)
        → held s.state ≡ true
        → s.tenant ≡ t
        → f s ≡ n
        → Tally d f (before ++ behind)
        → Tally (raise d t n) f (before ++ s ∷ behind)
    Tally-raise t n h o v y = record {
      at = λ j. ground (
        arith,
        y.at j,
        total-insert j before behind s,
        count-raise d t j n,
        eq_iff t j,
        eq_iff s.tenant j,
      );
    }

    pub Tally-lower :
        (t : String) (n : ℕ)
        → held s.state ≡ true
        → s.tenant ≡ t
        → f s ≡ n
        → Tally d f (before ++ s ∷ behind)
        → Tally (lower d t n) f (before ++ behind)
    Tally-lower t n h o v y = record {
      at = λ j. ground (
        arith,
        y.at j,
        total-insert j before behind s,
        count-lower d t j n,
        eq_iff t j,
        eq_iff s.tenant j,
      );
    }

module _ (f : Sandbox → ℕ) (d : Dict String ℕ) (before behind : List Sandbox) where
  -- A sandbox without a charge does not count either.
  pub Tally-free :
      (s : Sandbox) → f s ≡ 0 → Tally d f (before ++ behind) → Tally d f (before ++ s ∷ behind)
  Tally-free s h y = record { at = λ t. ground (arith, y.at t, total-insert f t before behind s) }

  pub Tally-unfree :
      (s : Sandbox) → f s ≡ 0 → Tally d f (before ++ s ∷ behind) → Tally d f (before ++ behind)
  Tally-unfree s h y = record { at = λ t. ground (arith, y.at t, total-insert f t before behind s) }

  -- One sandbox for another of the same tenant with the same charge.
  pub Tally-swap :
      (s u : Sandbox)
      → held s.state ≡ held u.state
      → s.tenant ≡ u.tenant
      → f s ≡ f u
      → Tally d f (before ++ s ∷ behind)
      → Tally d f (before ++ u ∷ behind)
  Tally-swap s u h o v y = record {
    at = λ t. ground (
      arith,
      y.at t,
      total-insert f t before behind s,
      total-insert f t before behind u,
      eq_iff s.tenant t,
      eq_iff u.tenant t,
    );
  }

-- A split is of this pool, at a sandbox that passes the test.
abbrev Splits : (Sandbox → Bool) → List Sandbox → Option Split → Type 0
Splits p pool none = Unit
Splits p pool (some (before, s, behind)) = (pool ≡ before ++ s ∷ behind) × (p s ≡ true)

prepend-Splits :
    (p : Sandbox → Bool) (x : Sandbox) (pool : List Sandbox) (o : Option Split)
    → Splits p pool o
    → Splits p (x ∷ pool) (prepend x o)
unfolding prepend
prepend-Splits p x pool none h = tt
prepend-Splits p x pool (some (before, s, behind)) h = (ap (◌∷◌ x) h.0, h.1)

split_first-Splits : (p : Sandbox → Bool) (pool : List Sandbox) → Splits p pool (split_first p pool)
unfolding split_first
split_first-Splits p [] = tt
split_first-Splits p (x ∷ pool) = elim (Bool-cases (p x)) [
  | inl hit ↦ rw hit (refl, hit)
  | inr miss ↦ rw miss (prepend-Splits p x pool (split_first p pool) (split_first-Splits p pool))
]

-- What `split_first` finds is where it says.
pub split_first-eq :
    (p : Sandbox → Bool) (pool before behind : List Sandbox) (s : Sandbox)
    → split_first p pool ≡ some (before, s, behind)
    → (pool ≡ before ++ s ∷ behind) × (p s ≡ true)
split_first-eq p pool before behind s h = subst (Splits p pool) h (split_first-Splits p pool)
