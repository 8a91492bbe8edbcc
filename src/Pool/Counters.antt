-- ===== src/Pool/Counters.antt =====
-- internal/pool/manager.go: the per-tenant counters, how a claim and a release change them, and the
-- two rollbacks.
use pvm.Prelude.{
  ℕ, ◌+◌, ◌-◌, ◌*◌, ◌%◌, ◌^◌, ◌<◌, String, ◌≡◌, refl, Bool, true, false, List, [], ◌∷◌, ◌++◌, ◌||◌,
  select, arith, ◌==◌, ltb, leb, text_comparable, nat_comparable, eq_iff, if◌then◌else◌, inl, inr,
  Bool-cases,
}
use pvm.Prelude.Dict.{Dict, put, get-put}
use pvm.Pool.Types.{Sandbox, Manager, count, window}

abbrev pub hour : ℕ
hour = 3600 * 1000000000

-- m[tenant] += n, and m[tenant] -= n with the clamp to 0.
unfoldable pub raise : Dict String ℕ → String → ℕ → Dict String ℕ
unfolding count
raise d t n = put d t (count d t + n)

unfoldable pub lower : Dict String ℕ → String → ℕ → Dict String ℕ
unfolding count
lower d t n = put d t (count d t - n)

-- The cpu is a Go int without a check, kept as its 64-bit word in two's complement: m[tenant] += n.
unfoldable pub raise_int : Dict String ℕ → String → ℕ → Dict String ℕ
unfolding count
raise_int d t n = put d t ((count d t + n) % 2 ^ 64)

-- w < 0.
abbrev pub is_negative : ℕ → Bool
is_negative w = leb (2 ^ 63) w

unfoldable pub minus_int : ℕ → ℕ → ℕ
minus_int a b = (a + (2 ^ 64 - b % 2 ^ 64)) % 2 ^ 64

-- m[tenant] -= n, and 0 if that is negative.
unfoldable pub lower_int : Dict String ℕ → String → ℕ → Dict String ℕ
unfolding count minus_int
lower_int d t n =
    let left = minus_int (count d t) n in put d t (if is_negative left then 0 else left)

-- a > b.
unfoldable pub exceeds_int : ℕ → ℕ → Bool
exceeds_int a b = ltb ((b + 2 ^ 63) % 2 ^ 64) ((a + 2 ^ 63) % 2 ^ 64)

pub count-raise_int :
    (d : Dict String ℕ) (t j : String) (n : ℕ)
    → count (raise_int d t n) j ≡ (if t == j then (count d j + n) % 2 ^ 64 else count d j)
unfolding raise_int count
count-raise_int d t j n = elim (Bool-cases (t == j)) [
  | inl same ↦ rw (get-put, same) (rw ((eq_iff t j).0 same) refl)
  | inr other ↦ rw (get-put, other)
]

pub count-lower_int :
    (d : Dict String ℕ) (t j : String) (n : ℕ)
    → count (lower_int d t n) j ≡ (
        if t == j
        then (if is_negative (minus_int (count d j) n) then 0 else minus_int (count d j) n)
        else count d j)
unfolding lower_int count
count-lower_int d t j n = elim (Bool-cases (t == j)) [
  | inl same ↦ rw (get-put, same) (rw ((eq_iff t j).0 same) refl)
  | inr other ↦ rw (get-put, other)
]

-- What is taken off again leaves a counter that was not negative as it was.
pub minus_int-raised :
    (a n : ℕ)
    → a < 2 ^ 63
    → (if is_negative (minus_int ((a + n) % 2 ^ 64) n) then 0 else minus_int ((a + n) % 2 ^ 64) n)
      ≡ a
unfolding minus_int
minus_int-raised a n h = ground arith

-- A sum loses one of its numbers, and what is left is not negative.
pub minus_int-sum :
    (a n : ℕ)
    → a < 2 ^ 63
    → (if is_negative (minus_int ((n + a) % 2 ^ 64) n) then 0 else minus_int ((n + a) % 2 ^ 64) n)
      ≡ a % 2 ^ 64
unfolding minus_int
minus_int-sum a n h = ground arith

pub count-raise :
    (d : Dict String ℕ) (t j : String) (n : ℕ)
    → count (raise d t n) j ≡ (if t == j then count d j + n else count d j)
unfolding raise count
count-raise d t j n = elim (Bool-cases (t == j)) [
  | inl same ↦ rw (get-put, same) (rw ((eq_iff t j).0 same) refl)
  | inr other ↦ rw (get-put, other)
]

pub count-lower :
    (d : Dict String ℕ) (t j : String) (n : ℕ)
    → count (lower d t n) j ≡ (if t == j then count d j - n else count d j)
unfolding lower count
count-lower d t j n = elim (Bool-cases (t == j)) [
  | inl same ↦ rw (get-put, same) (rw ((eq_iff t j).0 same) refl)
  | inr other ↦ rw (get-put, other)
]

-- Timestamps of the last hour. `t.After(now.Add(-time.Hour))`, with the hour on the other side.
unfoldable pub prune_hourly : Manager → String → ℕ → Manager
unfolding window
prune_hourly m tenant now = record m {
  hourly = put m.hourly tenant (select (λ t. ltb now (t + hour)) (window m.hourly tenant));
}

unfoldable pub account_claim : Manager → String → ℕ → ℕ → ℕ → Manager
account_claim m tenant cpu mem now = record m {
  running = raise m.running tenant 1;
  cpu = raise_int m.cpu tenant cpu;
  mem_mb = raise m.mem_mb tenant mem;
  hourly = put m.hourly tenant (window m.hourly tenant ++ now ∷ []);
}

unfoldable pub release_quota : Manager → Sandbox → Manager
release_quota m s = if s.tenant == "" then m else record m {
  running = lower m.running s.tenant 1;
  cpu = lower_int m.cpu s.tenant s.cpu;
  mem_mb = lower m.mem_mb s.tenant s.mem_mb;
}

unfoldable pub holds : ℕ → List ℕ → Bool
holds at [] = false
holds at (t ∷ ts) = t == at || holds at ts

-- The loop from the end: the last entry that equals `at` goes.
unfoldable pub remove_last : ℕ → List ℕ → List ℕ
unfolding holds
remove_last at [] = []
remove_last at (t ∷ ts) =
    let rest = remove_last at ts in if holds at ts then t ∷ rest else if t == at then ts else t ∷ ts

unfoldable pub rollback_claim : Manager → String → ℕ → ℕ → ℕ → Manager
unfolding remove_last
rollback_claim m tenant cpu mem at = if tenant == "" then m else record m {
  running = lower m.running tenant 1;
  cpu = lower_int m.cpu tenant cpu;
  mem_mb = lower m.mem_mb tenant mem;
  hourly = put m.hourly tenant (remove_last at (window m.hourly tenant));
}

unfoldable pub rollback_release : Manager → String → ℕ → ℕ → Manager
rollback_release m tenant cpu mem = if tenant == "" then m else record m {
  running = raise m.running tenant 1;
  cpu = raise_int m.cpu tenant cpu;
  mem_mb = raise m.mem_mb tenant mem;
}

holds-append : (at : ℕ) (ts : List ℕ) → holds at (ts ++ at ∷ []) ≡ true
unfolding holds
holds-append at [] = ground arith
holds-append at (t ∷ ts) = ground (arith, holds-append at ts)

pub remove_last-append : (at : ℕ) (ts : List ℕ) → remove_last at (ts ++ at ∷ []) ≡ ts
unfolding remove_last
remove_last-append at [] = ground arith
remove_last-append at (t ∷ ts) = rw (holds-append, remove_last-append at ts)
