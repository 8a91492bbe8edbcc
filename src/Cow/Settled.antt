-- ===== src/Cow/Settled.antt =====
-- internal/cow/qcow2.go: what the loop of `computeQcow2Layout` has found when it stops.
use pvm.Prelude.{
  ℕ, suc, ◌+◌, ◌-◌, ◌*◌, ◌/◌, ◌%◌, ◌≤◌, ◌<◌, ◌≡◌, ◌≢◌, ◌∙◌, ap, refl, sym, subst, true, false,
  Result, ok, ◌>>=◌, ◌==◌, nat_comparable, inl, inr, Bool-cases, arith,
}
use native.Mathlib.Nat.{mod-lt, div-add-mod', div-mul-le_self, lt-div-mul-add, mul-le-mul_left}
use pvm.Cow.Layout.{
  refblock_overflow, Error, Sizes, Layout, word, div_ceil, relabel, phys_meta_of, worst_blocks,
  worst_tables, plan, converge,
}

-- A call that gives a value with a property.
pub record Succeeds {A : Type 0} (P : A → Type 0) (r : Result Error A) : Type 0 where
  pub value : A
  pub made : r ≡ ok value
  pub holds : P value

pub ok-Succeeds : {A : Type 0} (P : A → Type 0) (a : A) → P a → Succeeds P (ok a)
ok-Succeeds P a p = record { value = a; made = refl; holds = p }

pub bind-Succeeds :
    {A B : Type 0} (P : A → Type 0) (Q : B → Type 0) (r : Result Error A) (f : A → Result Error B)
    → Succeeds P r
    → ((a : A) → P a → Succeeds Q (f a))
    → Succeeds Q (r >>= f)
bind-Succeeds P Q r f p q =
    subst (λ (x : Result Error _). Succeeds Q (x >>= f)) (sym p.made) (q p.value p.holds)

relabel-Succeeds :
    (P : ℕ → Type 0) (e : Error) (r : Result Error ℕ) → Succeeds P r → Succeeds P (relabel e r)
relabel-Succeeds P e r p =
    subst (λ (x : Result Error ℕ). Succeeds P (relabel e x)) (sym p.made)
      (ok-Succeeds P p.value p.holds)

-- The least `q` for which `q * b` is at least `a`.
pub record IsCeil (a b q : ℕ) : Type 0 where
  pub enough : a ≤ q * b
  pub least : q * b < a + b

not_full : (a b : ℕ) → 2 ≤ b → a < 18446744073709551616 → a / b ≤ 18446744073709551614
not_full a b p h =
    let m : a / b * 2 ≤ a / b * b = mul-le-mul_left (a / b) p in
    omega (arith, m, div-mul-le_self a b)

div_ceil-Succeeds :
    (a b : ℕ) → 2 ≤ b → a < 18446744073709551616 → Succeeds (IsCeil a b) (div_ceil a b)
unfolding div_ceil
div_ceil-Succeeds a b p h =
    let e = div-add-mod' a b in
    let m : a % b < b = mod-lt a (omega arith) in
    let q : (b == 0) ≡ false = ground arith in
    let n : (a / b == 18446744073709551615) ≡ false = ground (arith, not_full a b p h) in
    elim (Bool-cases (a % b == 0)) [
      | inl z ↦
          rw (q, z)
            (ok-Succeeds (IsCeil a b) (a / b)
              record { enough = ground (arith, e, z); least = ground (arith, e, z) })
      | inr z ↦
          rw (q, z, n)
            (ok-Succeeds (IsCeil a b) (a / b + 1)
              record { enough = omega (arith, e, m, p); least = ground (arith, e, z, m, p) })
    ]

pub ceil-Succeeds :
    (a b : ℕ) (e : Error)
    → 2 ≤ b
    → a < 18446744073709551616
    → Succeeds (IsCeil a b) (relabel e (div_ceil a b))
ceil-Succeeds a b e p h = relabel-Succeeds (IsCeil a b) e (div_ceil a b) (div_ceil-Succeeds a b p h)

-- What holds when the loop stops.
pub record IsSettled (s : Sizes) (l : Layout) : Type 0 where
  pub blocks : worst_blocks s l.refblock_cnt l.reftable_cls ≡ l.refblock_cnt
  pub tables : worst_tables s l.refblock_cnt ≡ l.reftable_cls
  pub used :
      IsCeil (word (2 * phys_meta_of s l.refblock_cnt l.reftable_cls)) s.cluster l.ref_used_cls
  pub planned : l ≡ plan s l.refblock_cnt l.reftable_cls l.ref_used_cls

plan-IsSettled :
    (s : Sizes) (r t used : ℕ)
    → worst_blocks s r t ≡ r
    → worst_tables s r ≡ t
    → IsCeil (word (2 * phys_meta_of s r t)) s.cluster used
    → IsSettled s (plan s r t used)
plan-IsSettled s r t used n m c = record { blocks = n; tables = m; used = c; planned = refl }

-- One round: it stops, or the rest of the rounds succeed from where it goes on.
pub turn-Succeeds :
    (k : ℕ) (s : Sizes) (r t : ℕ)
    → 2 ≤ s.cluster
    → worst_tables s r ≡ t
    → (worst_blocks s r t ≢ r
        → Succeeds
            (IsSettled s)
            (converge k s (worst_blocks s r t) (worst_tables s (worst_blocks s r t))))
    → Succeeds (IsSettled s) (converge (suc k) s r t)
unfolding converge
turn-Succeeds k s r t p q next = elim (Bool-cases (worst_blocks s r t == r)) [
  | inr moved ↦ rw moved (next (λ n. ground (arith, n, moved)))
  | inl n ↦
      let blocks : worst_blocks s r t ≡ r = (nat_comparable.equal_iff (worst_blocks s r t) r).0 n in
      let same : (worst_tables s (worst_blocks s r t) == t) ≡ true =
        (nat_comparable.equal_iff (worst_tables s (worst_blocks s r t)) t).1
          (ap (worst_tables s) blocks ∙ q) in
      rw (n, same)
        (bind-Succeeds (IsCeil (word (2 * phys_meta_of s r t)) s.cluster) (IsSettled s)
          (relabel refblock_overflow (div_ceil (word (2 * phys_meta_of s r t)) s.cluster))
          (λ used. ok (plan s r t used))
          (ceil-Succeeds (word (2 * phys_meta_of s r t)) s.cluster refblock_overflow p
            (omega arith))
          (λ used c.
            ok-Succeeds (IsSettled s) (plan s r t used) (plan-IsSettled s r t used blocks q c)))
]

-- The bounds at a fixed point, where clusters have `8 * e` bytes: no sum has wrapped around.
pub record IsBounded (e r t base : ℕ) : Type 0 where
  pub small : r ≤ 1073741824
  pub covers : 1 + t + r + base ≤ r * (4 * e)
  pub close : r * (4 * e) < 1 + t + r + base + 4 * e
  pub listed : r ≤ t * e
  pub few : t * e < r + e

pub fixed-IsBounded :
    (e r t l1 l2 rest : ℕ)
    → 64 ≤ e
    → e ≤ 262144
    → l1 + l2 + rest ≤ 137438953472
    → word (word (word (1 + t + r + l1 + l2) + rest) + 4 * e - 1) / (4 * e) ≡ r
    → word (r + e - 1) / e ≡ t
    → IsBounded e r t (l1 + l2 + rest)
fixed-IsBounded e r t l1 l2 rest lo hi m rr tt =
    let w = word (word (word (1 + t + r + l1 + l2) + rest) + 4 * e - 1) in
    let v = word (r + e - 1) in
    let a : r * (4 * e) ≤ w = subst (λ (x : ℕ). x * (4 * e) ≤ w) rr (div-mul-le_self w (4 * e)) in
    let b : w < r * (4 * e) + 4 * e =
      subst (λ (x : ℕ). w < x * (4 * e) + 4 * e) rr (lt-div-mul-add (omega arith)) in
    let c : t * e ≤ v = subst (λ (x : ℕ). x * e ≤ v) tt (div-mul-le_self v e) in
    let d : v < t * e + e = subst (λ (x : ℕ). v < x * e + e) tt (lt-div-mul-add (omega arith)) in
    let f : r * 256 ≤ r * (4 * e) = mul-le-mul_left r (omega arith) in
    let g : t * 64 ≤ t * e = mul-le-mul_left t lo in
    record {
      small = omega (arith, a, b, c, d, f, g, m, hi);
      covers = omega (arith, a, b, c, d, f, g, m, hi, lo);
      close = omega (arith, a, b, c, d, f, g, m, hi, lo);
      listed = omega (arith, a, b, c, d, f, g, m, hi);
      few = omega (arith, a, b, c, d, f, g, m, hi, lo);
    }
