-- ===== src/Pool/Signed.antt =====
-- The cpu counter of internal/pool/manager.go, a Go int, against the sums over the sandboxes that the
-- tenants hold, modulo 2 ^ 64.
use pvm.Prelude.{
  ℕ, ◌+◌, ◌%◌, ◌^◌, ◌<◌, ◌≤◌, ltb, String, ◌≡◌, ap, ◌∙◌, true, false, List, [], ◌∷◌, ◌++◌, arith,
  text_comparable, eq_iff,
}
use pvm.Prelude.Dict.{Dict}
use pvm.Pool.Types.{Sandbox, count}
use pvm.Pool.Counters.{raise_int, lower_int, count-raise_int, count-lower_int, minus_int-sum}
use pvm.Pool.Tally.{held, total, total-insert}

pub record IntTally (d : Dict String ℕ) (f : Sandbox → ℕ) (pool : List Sandbox) : Type 0 where
  pub at : (t : String) → count d t ≡ total f t pool % 2 ^ 64

module _ (f : Sandbox → ℕ) (d : Dict String ℕ) (before behind : List Sandbox) (s : Sandbox) where
  pub IntTally-idle :
      held s.state ≡ false → IntTally d f (before ++ behind) → IntTally d f (before ++ s ∷ behind)
  IntTally-idle h y = record {
    at = λ t. y.at t ∙ ap (λ n. n % 2 ^ 64) (ground (arith, total-insert f t before behind s));
  }

  pub IntTally-skip :
      held s.state ≡ false → IntTally d f (before ++ s ∷ behind) → IntTally d f (before ++ behind)
  IntTally-skip h y = record {
    at = λ t. y.at t ∙ ap (λ n. n % 2 ^ 64) (ground (arith, total-insert f t before behind s));
  }

  pub IntTally-raise :
      (t : String)
      → held s.state ≡ true
      → s.tenant ≡ t
      → IntTally d f (before ++ behind)
      → IntTally (raise_int d t (f s)) f (before ++ s ∷ behind)
  IntTally-raise t h o y = record {
    at = λ j. ground (
      arith,
      y.at j,
      total-insert f j before behind s,
      count-raise_int d t j (f s),
      eq_iff t j,
      eq_iff s.tenant j,
    );
  }

  -- The numbers of those who stay are not negative, and neither is their sum.
  pub IntTally-lower :
      (t : String)
      → held s.state ≡ true
      → s.tenant ≡ t
      → total f t (before ++ behind) < 2 ^ 63
      → IntTally d f (before ++ s ∷ behind)
      → IntTally (lower_int d t (f s)) f (before ++ behind)
  IntTally-lower t h o small y = record {
    at = λ j. ground (
      arith,
      y.at j,
      total-insert f j before behind s,
      count-lower_int d t j (f s),
      minus_int-sum (total f t (before ++ behind)) (f s) small,
      eq_iff t j,
      eq_iff s.tenant j,
    );
  }

module _ (f : Sandbox → ℕ) (d : Dict String ℕ) (before behind : List Sandbox) where
  -- One sandbox for another of the same tenant with the same charge.
  pub IntTally-swap :
      (s u : Sandbox)
      → held s.state ≡ held u.state
      → s.tenant ≡ u.tenant
      → f s ≡ f u
      → IntTally d f (before ++ s ∷ behind)
      → IntTally d f (before ++ u ∷ behind)
  IntTally-swap s u h o v y = record {
    at = λ t.
        y.at t
        ∙ ap (λ n. n % 2 ^ 64)
            (ground (
              arith,
              total-insert f t before behind s,
              total-insert f t before behind u,
              eq_iff s.tenant t,
              eq_iff u.tenant t,
            ));
  }

-- Every tenant's cpu in the pool is a sum of numbers that are not negative, and so is the sum.
abbrev pub IsFit : List Sandbox → Type 0
IsFit pool = (t : String) → total (λ s. s.cpu) t pool < 2 ^ 63

pub IsFit-remove :
    (before behind : List Sandbox) (s : Sandbox)
    → IsFit (before ++ s ∷ behind)
    → IsFit (before ++ behind)
IsFit-remove before behind s h t = omega (arith, h t, total-insert (λ s. s.cpu) t before behind s)

-- The cpu of a pool, whoever holds it.
abbrev every_cpu : List Sandbox → ℕ
every_cpu [] = 0
every_cpu (s ∷ ss) = s.cpu + every_cpu ss

total-le : (t : String) (pool : List Sandbox) → total (λ s. s.cpu) t pool ≤ every_cpu pool
unfolding total
total-le t [] = omega arith
total-le t (s ∷ ss) = ground (arith, total-le t ss)

pub IsFit-small : (pool : List Sandbox) → ltb (every_cpu pool) (2 ^ 63) ≡ true → IsFit pool
IsFit-small pool h t = ground (arith, total-le t pool, h)
