-- ===== src/Cow/Converge.antt =====
-- internal/cow/qcow2.go: the loop of `computeQcow2Layout` comes to a fixed point.
use pvm.Prelude.{
  ℕ, zero, suc, ◌+◌, ◌-◌, ◌*◌, ◌/◌, ◌^◌, ◌≤◌, ◌<◌, ◌≡◌, ◌≢◌, refl, sym, ap, subst, arith,
}
use native.Mathlib.Nat.{
  pow-suc, one-le-pow, not-suc-le-zero, lt_of_mul-lt-mul_left, mul-le-mul_left, div-mul-le_self,
  lt-div-mul-add,
}
use pvm.Cow.Layout.{Sizes, word, phys_meta_of, worst_blocks, worst_tables, converge}
use pvm.Cow.Settled.{Succeeds, IsCeil, IsSettled, turn-Succeeds}
use pvm.Cow.Sized.{IsSized, half, eighth, cluster-ge, base-le}

-- The blocks `r` and tables `t` of a round, with `e` entries to a table cluster and `4 * e` to a block: the
-- blocks fall short of the worst case by at most `gap` entries.
record IsNear (e base gap r t : ℕ) : Type 0 where
  listed : r ≤ t * e
  few : t * e < r + e
  needed : r * (4 * e) < 1 + t + r + base + 4 * e
  short : 1 + t + r + base ≤ r * (4 * e) + gap
  bounded : r ≤ 137438953472

round_up-IsCeil :
    (w d : ℕ) → 0 < d → w + d - 1 < 18446744073709551616 → IsCeil w d (word (w + d - 1) / d)
round_up-IsCeil w d p h =
    let v : word (w + d - 1) ≡ w + d - 1 = omega (arith, h) in
    let a = div-mul-le_self (w + d - 1) d in
    let b : w + d - 1 < (w + d - 1) / d * d + d = lt-div-mul-add p in
    subst (λ (x : ℕ). IsCeil w d (x / d)) (sym v)
      record { enough = omega (arith, b, p); least = omega (arith, a, p) }

-- The count that rounds up more is not smaller.
ceil_mono : (a b d x y : ℕ) → x * d < a + d → a ≤ b → b ≤ y * d → x ≤ y
ceil_mono a b d x y p q r =
    let h : x < y + 1 = lt_of_mul-lt-mul_left d {m = x} {n = y + 1} (omega (arith, p, q, r)) in
    omega (arith, h)

-- A step that more than `k` entries fit in.
step_bound : (n d k gap : ℕ) → 0 < k → k ≤ d → n * d < gap + d → n * k < gap + k
step_bound zero d k gap z h p = omega (arith, z)
step_bound (suc n) d k gap z h p =
    let m : n * k ≤ n * d = mul-le-mul_left n h in omega (arith, m, p)

module _ (e base gap r t : ℕ) (near : IsNear e base gap r t) (lo : 64 ≤ e) where
  near-grows : (x : ℕ) → IsCeil (1 + t + r + base) (4 * e) x → r ≤ x
  near-grows x c =
      ceil_mono (1 + t + r + base) (1 + t + r + base) (4 * e) r x near.needed (omega arith) c.enough

  near-step : (n : ℕ) → IsCeil (1 + t + r + base) (4 * e) (r + n) → n * 256 < gap + 256
  near-step n c =
      step_bound n (4 * e) 256 gap (omega arith) (omega (arith, lo))
        (omega (arith, c.least, near.short))

  tables-grow : (x y : ℕ) → r ≤ x → IsCeil x e y → t ≤ y
  tables-grow x y h c = ceil_mono r x e t y near.few h c.enough

  tables-step : (n m : ℕ) → IsCeil (r + n) e (t + m) → m * 64 < n + 64
  tables-step n m c = step_bound m e 64 n (omega arith) lo (omega (arith, c.least, near.listed))

  next-le :
      (x : ℕ)
      → e ≤ 262144
      → base ≤ 137438953472
      → IsCeil (1 + t + r + base) (4 * e) x
      → x ≤ 137438953472
  next-le x hi h c =
      let f : x * 256 ≤ x * (4 * e) = mul-le-mul_left x (omega (arith, lo)) in
      let g : t * 64 ≤ t * e = mul-le-mul_left t lo in
      omega (arith, f, g, c.least, near.few, near.bounded, hi, h)

  next-IsNear :
      (n m : ℕ)
      → e ≤ 262144
      → base ≤ 137438953472
      → IsCeil (1 + t + r + base) (4 * e) (r + n)
      → IsCeil (r + n) e (t + m)
      → IsNear e base (n + m) (r + n) (t + m)
  next-IsNear n m hi h c d = record {
    listed = d.enough;
    few = d.least;
    needed = omega (arith, c.least);
    short = omega (arith, c.enough);
    bounded = next-le (r + n) hi h c;
  }

abbrev base_of : Sizes → ℕ
base_of s = s.l1_clusters + s.l2_count + s.data_clusters

-- The blocks of the next round round the worst case up.
blocks-IsCeil :
    (size e gap r t : ℕ) (s : Sizes)
    → size ≤ 17592186044416
    → IsSized size e s
    → IsNear e (base_of s) gap r t
    → IsCeil (1 + t + r + base_of s) (4 * e) (worst_blocks s r t)
blocks-IsCeil size e gap r t s h z near =
    let k = z.shape in
    let g : t * 64 ≤ t * e = mul-le-mul_left t k.least in
    let b = base-le size e s h z in
    let w : word (phys_meta_of s r t + s.data_clusters) ≡ 1 + t + r + base_of s =
      omega (arith, g, b, near.few, near.bounded, k.most) in
    subst
      (λ (x : ℕ).
        IsCeil (1 + t + r + base_of s) (4 * e)
          (word (word (phys_meta_of s r t + s.data_clusters) + x - 1) / x))
      (sym (half s.cluster e k))
      (subst (λ (x : ℕ). IsCeil (1 + t + r + base_of s) (4 * e) (word (x + 4 * e - 1) / (4 * e)))
        (sym w)
        (round_up-IsCeil (1 + t + r + base_of s) (4 * e) (omega (arith, k.least))
          (omega (arith, g, b, near.few, near.bounded, k.most))))

tables-IsCeil :
    (size e n : ℕ) (s : Sizes) → IsSized size e s → n ≤ 137438953472 → IsCeil n e (worst_tables s n)
tables-IsCeil size e n s z h =
    let k = z.shape in
    subst (λ (x : ℕ). IsCeil n e (word (n + x - 1) / x)) (sym (eighth s.cluster e k))
      (round_up-IsCeil n e (omega (arith, k.least)) (omega (arith, h, k.most)))

-- The next round adds `n` blocks and `m` tables.
record IsNext (e base gap r t x y : ℕ) : Type 0 where
  n : ℕ
  m : ℕ
  more : x ≡ r + n
  longer : y ≡ t + m
  few_blocks : n * 256 < gap + 256
  few_tables : m * 64 < n + 64
  near : IsNear e base (n + m) x y

round-IsNext :
    (size e gap r t : ℕ) (s : Sizes)
    → size ≤ 17592186044416
    → IsSized size e s
    → IsNear e (base_of s) gap r t
    → IsNext e (base_of s) gap r t (worst_blocks s r t) (worst_tables s (worst_blocks s r t))
round-IsNext size e gap r t s h z near =
    let k = z.shape in
    let base = base_of s in
    let hb = base-le size e s h z in
    let x = worst_blocks s r t in
    let y = worst_tables s x in
    let c = blocks-IsCeil size e gap r t s h z near in
    let d = tables-IsCeil size e x s z (next-le e base gap r t near k.least x k.most hb c) in
    let g = near-grows e base gap r t near k.least x c in
    let f = tables-grow e base gap r t near k.least x y g d in
    let p : x ≡ r + (x - r) = omega (arith, g) in
    let q : y ≡ t + (y - t) = omega (arith, f) in
    let c' = subst (IsCeil (1 + t + r + base) (4 * e)) p c in
    let d' : IsCeil (r + (x - r)) e (t + (y - t)) =
      subst (λ (i : ℕ). IsCeil i e (t + (y - t))) p (subst (IsCeil x e) q d) in
    let near' = next-IsNear e base gap r t near k.least (x - r) (y - t) k.most hb c' d' in
    record {
      n = x - r;
      m = y - t;
      more = p;
      longer = q;
      few_blocks = near-step e base gap r t near k.least (x - r) c';
      few_tables = tables-step e base gap r t near k.least (x - r) (y - t) d';
      near =
          subst (λ (i : ℕ). IsNear e base (x - r + (y - t)) i y) (sym p)
            (subst (IsNear e base (x - r + (y - t)) (r + (x - r))) (sym q) near');
    }

still : (e base r t x y : ℕ) → IsNext e base 0 r t x y → x ≡ r
still e base r t x y next = omega (arith, next.more, next.few_blocks)

widen : (e base gap wide r t : ℕ) → gap ≤ wide → IsNear e base gap r t → IsNear e base wide r t
widen e base gap wide r t h near = record {
  listed = near.listed;
  few = near.few;
  needed = near.needed;
  short = omega (arith, near.short, h);
  bounded = near.bounded;
}

close-IsNear :
    (e base r t x y : ℕ)
    → 64 ≤ e
    → IsNear e base 4 r t
    → IsNext e base 4 r t x y
    → x ≢ r
    → IsNear e base 0 x y
close-IsNear e base r t x y lo near next moved =
    let p : x ≡ r + 1 = ground (arith, moved, next.more, next.few_blocks) in
    let q : x * (4 * e) ≡ (r + 1) * (4 * e) = ap (λ (i : ℕ). i * (4 * e)) p in
    record {
      listed = next.near.listed;
      few = next.near.few;
      needed = next.near.needed;
      short =
          omega
            (arith, p, q, lo, near.short, next.longer, next.more, next.few_blocks, next.few_tables);
      bounded = next.near.bounded;
    }

-- A round cuts the gap to a hundredth.
closer : (j n m : ℕ) → n * 256 < 4 * 100 ^ suc j + 256 → m * 64 < n + 64 → n + m ≤ 4 * 100 ^ j
closer j n m p q =
    let a : 100 ^ suc j ≡ 100 ^ j * 100 = pow-suc 100 j in
    let b : 1 ≤ 100 ^ j = one-le-pow j 100 (omega arith) in omega (arith, a, b, p, q)

module _ (size e : ℕ) (s : Sizes) (h : size ≤ 17592186044416) (z : IsSized size e s) where
  two-le : 2 ≤ s.cluster
  two-le = let c = cluster-ge s.cluster e z.shape in omega (arith, c)

  still-Succeeds :
      (k r t : ℕ)
      → IsNear e (base_of s) 0 r t
      → worst_tables s r ≡ t
      → Succeeds (IsSettled s) (converge (suc k) s r t)
  still-Succeeds k r t near q = turn-Succeeds k s r t two-le q (λ moved.
      let x = round-IsNext size e 0 r t s h z near in
      absurd (moved (still e (base_of s) r t _ _ x)))

  close-Succeeds :
      (k r t : ℕ)
      → IsNear e (base_of s) 4 r t
      → worst_tables s r ≡ t
      → Succeeds (IsSettled s) (converge (suc (suc k)) s r t)
  close-Succeeds k r t near q = turn-Succeeds (suc k) s r t two-le q (λ moved.
      let x = round-IsNext size e 4 r t s h z near in
      still-Succeeds k _ _
        (close-IsNear e (base_of s) r t _ _ (omega (arith, z.shape.least)) near x moved) refl)

  near-Succeeds :
      (j k r t : ℕ)
      → j ≤ k
      → IsNear e (base_of s) (4 * 100 ^ j) r t
      → worst_tables s r ≡ t
      → Succeeds (IsSettled s) (converge (suc (suc k)) s r t)
  near-Succeeds zero k r t i near q =
      close-Succeeds k r t (widen e (base_of s) _ 4 r t (omega arith) near) q
  near-Succeeds (suc j) zero r t i near q = absurd (not-suc-le-zero i)
  near-Succeeds (suc j) (suc k) r t i near q = turn-Succeeds (suc (suc k)) s r t two-le q (λ moved.
      let x = round-IsNext size e (4 * 100 ^ suc j) r t s h z near in
      near-Succeeds j k _ _ (omega (arith, i))
        (widen e (base_of s) _ (4 * 100 ^ j) _ _ (closer j x.n x.m x.few_blocks x.few_tables)
          x.near)
        refl)

one_table : (e y : ℕ) → 64 ≤ e → IsCeil 1 e y → y ≡ 1
one_table e y lo c =
    let a : 1 ≤ y = ceil_mono 1 1 e 1 y (omega arith) (omega arith) c.enough in
    let b : y ≤ 1 = ceil_mono 1 e e y 1 c.least (omega (arith, lo)) (omega arith) in
    omega (arith, a, b)

-- The loop stops within its 32 rounds, whatever the size of the image.
pub converge-Succeeds :
    (size e : ℕ) (s : Sizes)
    → size ≤ 17592186044416
    → IsSized size e s
    → Succeeds (IsSettled s) (converge 32 s 1 1)
converge-Succeeds size e s h z =
    let k = z.shape in
    let b = base-le size e s h z in
    near-Succeeds size e s h z 6 30 1 1 (omega arith)
      record {
        listed = omega (arith, k.least);
        few = omega arith;
        needed = omega arith;
        short = omega (arith, b);
        bounded = omega arith;
      }
      (one_table e (worst_tables s 1) k.least (tables-IsCeil size e 1 s z (omega arith)))
