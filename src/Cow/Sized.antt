-- ===== src/Cow/Sized.antt =====
-- internal/cow/qcow2.go: the sizes of the L1 table and of the data that `computeQcow2Layout` starts from.
use pvm.Prelude.{
  ℕ, ◌+◌, ◌-◌, ◌*◌, ◌/◌, ◌^◌, ◌≤◌, ◌≡◌, sym, subst, Bool, true, false, ok, if◌then◌else◌, arith,
  ltb,
}
use native.Mathlib.Nat.{mul-le-mul, mul-le-mul_left, pow-le-pow_right}
use native.Mathlib.Numerals.{towards_suc}
use pvm.Cow.Layout.{
  Sizes, word, div_ceil, relabel, size_up, size_data, sizes_of, l1_overflow, l1_clusters_overflow,
  data_overflow,
}
use pvm.Cow.Settled.{Succeeds, ok-Succeeds, bind-Succeeds, ceil-Succeeds, IsCeil}

-- A cluster of `8 * e` bytes, 512 to 2^21 of them.
pub record IsCluster (c e : ℕ) : Type 0 where
  pub eighths : c ≡ 8 * e
  pub least : 64 ≤ e
  pub most : e ≤ 262144

-- The sizes are those of an image of `size` bytes.
pub record IsSized (size e : ℕ) (s : Sizes) : Type 0 where
  pub shape : IsCluster s.cluster e
  pub l1 : IsCeil size (e * s.cluster) s.l1_size
  pub l1_room : IsCeil (s.l1_size * 8) s.cluster s.l1_clusters
  pub clusters : IsCeil size s.cluster s.data_clusters
  pub preallocated : s.l2_count ≤ s.l1_size

eight_times : (k : ℕ) → 2 ^ (k + 3) ≡ 8 * 2 ^ k
eight_times k = simp towards_suc (omega arith)

pub pow-IsCluster : (b : ℕ) → 9 ≤ b → b ≤ 21 → IsCluster (2 ^ b) (2 ^ (b - 3))
pow-IsCluster b lo hi =
    let p : 64 ≤ 2 ^ (b - 3) =
      pow-le-pow_right {n = 2} (omega arith) {i = 6} {j = b - 3} (omega arith) in
    let q : 2 ^ (b - 3) ≤ 262144 =
      pow-le-pow_right {n = 2} (omega arith) {i = b - 3} {j = 18} (omega arith) in
    let n : b - 3 + 3 ≡ b = omega arith in
    record {
      eighths = subst (λ (x : ℕ). 2 ^ x ≡ 8 * 2 ^ (b - 3)) n (eight_times (b - 3));
      least = p;
      most = q;
    }

eight_le : (e n : ℕ) → n ≤ e → 8 * n ≤ 8 * e
eight_le e n h = omega arith

le_eight : (e n : ℕ) → e ≤ n → 8 * e ≤ 8 * n
le_eight e n h = omega arith

-- `L1` tables of an image that is not too large have at most 2^30 entries.
l1_small :
    (size e l : ℕ)
    → size ≤ 17592186044416
    → 64 ≤ e
    → e ≤ 262144
    → IsCeil size (e * (8 * e)) l
    → l ≤ 1073741824
l1_small size e l h lo hi c =
    let k = c.least in
    let f : 64 * 512 ≤ e * (8 * e) = mul-le-mul lo (eight_le e 64 lo) in
    let g : l * (64 * 512) ≤ l * (e * (8 * e)) = mul-le-mul_left l f in
    let m : e * (8 * e) ≤ 262144 * 2097152 = mul-le-mul hi (le_eight e 262144 hi) in
    omega (arith, k, f, g, m, h)

pub table_small :
    (size c e l : ℕ)
    → size ≤ 17592186044416
    → IsCluster c e
    → IsCeil size (e * c) l
    → l ≤ 1073741824
table_small size c e l h k q =
    l1_small size e l h k.least k.most (subst (λ (x : ℕ). IsCeil size (e * x) l) k.eighths q)

count-le : (pre : Bool) (n : ℕ) → (if pre then n else 0) ≤ n
count-le true n = omega arith
count-le false n = omega arith

pub cluster-ge : (c e : ℕ) → IsCluster c e → 512 ≤ c
cluster-ge c e k = omega (arith, k.eighths, k.least)

pub cluster-le : (c e : ℕ) → IsCluster c e → c ≤ 2097152
cluster-le c e k = omega (arith, k.eighths, k.most)

span_eq : (c e : ℕ) → IsCluster c e → word (c / 8 * c) ≡ e * c
span_eq c e k =
    let d : c / 8 ≡ e = omega (arith, k.eighths) in
    let m : e * c ≤ 262144 * 2097152 = mul-le-mul k.most (cluster-le c e k) in
    rw d (omega (arith, m))

span-ge : (c e : ℕ) → IsCluster c e → 2 ≤ e * c
span-ge c e k = let m : 64 * 512 ≤ e * c = mul-le-mul k.least (cluster-ge c e k) in omega (arith, m)

size_data-Succeeds :
    (size bits c e : ℕ) (pre : Bool) (l1 : ℕ)
    → size ≤ 17592186044416
    → IsCluster c e
    → IsCeil size (e * c) l1
    → Succeeds (IsSized size e) (size_data size bits c pre l1)
unfolding size_data
size_data-Succeeds size bits c e pre l1 h k q =
    let l = table_small size c e l1 h k q in
    let p : 2 ≤ c = omega (arith, cluster-ge c e k) in
    let w : word (l1 * 8) ≡ l1 * 8 = omega (arith, l) in
    let room : Succeeds (IsCeil (l1 * 8) c)
        (relabel l1_clusters_overflow (div_ceil (word (l1 * 8)) c)) =
      subst (λ (x : ℕ). Succeeds (IsCeil (l1 * 8) c) (relabel l1_clusters_overflow (div_ceil x c)))
        (sym w) (ceil-Succeeds (l1 * 8) c l1_clusters_overflow p (omega (arith, l))) in
    bind-Succeeds (IsCeil (l1 * 8) c) (IsSized size e)
      (relabel l1_clusters_overflow (div_ceil (word (l1 * 8)) c)) _ room
      (λ n r.
        bind-Succeeds (IsCeil size c) (IsSized size e) (relabel data_overflow (div_ceil size c))
          (λ d. ok (sizes_of bits c pre l1 n d))
          (ceil-Succeeds size c data_overflow p (omega (arith, h)))
          (λ d v. ok-Succeeds (IsSized size e) (sizes_of bits c pre l1 n d) record {
            shape = k;
            l1 = q;
            l1_room = r;
            clusters = v;
            preallocated = count-le pre l1;
          }))

pub size_up-Succeeds :
    (size bits c e : ℕ) (pre : Bool)
    → size ≤ 17592186044416
    → IsCluster c e
    → Succeeds (IsSized size e) (size_up size bits c pre)
unfolding size_up
size_up-Succeeds size bits c e pre h k =
    let w = span_eq c e k in
    let span : Succeeds (IsCeil size (e * c))
        (relabel l1_overflow (div_ceil size (word (c / 8 * c)))) =
      subst (λ (x : ℕ). Succeeds (IsCeil size (e * c)) (relabel l1_overflow (div_ceil size x)))
        (sym w) (ceil-Succeeds size (e * c) l1_overflow (span-ge c e k) (omega (arith, h))) in
    bind-Succeeds (IsCeil size (e * c)) (IsSized size e)
      (relabel l1_overflow (div_ceil size (word (c / 8 * c)))) _ span
      (λ l q.
        let small = table_small size c e l h k q in
        let room : ltb 4294967295 l ≡ false = ground (arith, small) in
        rw room (size_data-Succeeds size bits c e pre l h k q))

-- The parts of `base` in a fixed point are small.
pub base-le :
    (size e : ℕ) (s : Sizes)
    → size ≤ 17592186044416
    → IsSized size e s
    → s.l1_clusters + s.l2_count + s.data_clusters ≤ 137438953472
base-le size e s h z =
    let k = z.shape in
    let l = table_small size s.cluster e s.l1_size h k z.l1 in
    let c = s.l1_clusters in
    let d = s.data_clusters in
    let f : c * 512 ≤ c * s.cluster = mul-le-mul_left c (cluster-ge s.cluster e k) in
    let g : d * 512 ≤ d * s.cluster = mul-le-mul_left d (cluster-ge s.cluster e k) in
    omega (
      arith,
      l,
      f,
      g,
      h,
      z.l1_room.least,
      z.clusters.least,
      z.preallocated,
      cluster-le s.cluster e k,
    )

pub half : (c e : ℕ) → IsCluster c e → c / 2 ≡ 4 * e
half c e k = omega (arith, k.eighths)

pub eighth : (c e : ℕ) → IsCluster c e → c / 8 ≡ e
eighth c e k = omega (arith, k.eighths)
