-- ===== src/Cow/Covered.antt =====
-- internal/cow/qcow2.go: what the layout that `computeQcow2Layout` returns covers.
use pvm.Prelude.{
  ℕ, ◌+◌, ◌-◌, ◌*◌, ◌/◌, ◌^◌, ◌≤◌, ◌<◌, ◌≡◌, refl, sym, ap, subst, Bool, false, ◌||◌, arith, ltb,
}
use native.Mathlib.Nat.{lt_of_mul-lt-mul_left, mul-le-mul, mul-le-mul_right}
use pvm.Cow.Layout.{
  Sizes, Layout, word, phys_meta_of, refblock_offset, l1_offset, worst_blocks, worst_tables, plan,
  converge, size_up, compute_layout, chosen_bits,
}
use pvm.Cow.Settled.{Succeeds, bind-Succeeds, IsCeil, IsSettled, IsBounded, fixed-IsBounded}
use pvm.Cow.Converge.{converge-Succeeds}
use pvm.Cow.Sized.{
  IsCluster, IsSized, pow-IsCluster, cluster-le, half, eighth, table_small, base-le,
  size_up-Succeeds,
}

settled-IsBounded :
    (size e r t : ℕ) (s : Sizes)
    → size ≤ 17592186044416
    → IsSized size e s
    → worst_blocks s r t ≡ r
    → worst_tables s r ≡ t
    → IsBounded e r t (s.l1_clusters + s.l2_count + s.data_clusters)
settled-IsBounded size e r t s h z n m =
    fixed-IsBounded e r t s.l1_clusters s.l2_count s.data_clusters z.shape.least z.shape.most
      (base-le size e s h z)
      (subst (λ (x : ℕ). word (word (phys_meta_of s r t + s.data_clusters) + x - 1) / x ≡ r)
        (half s.cluster e z.shape) n)
      (subst (λ (x : ℕ). word (r + x - 1) / x ≡ t) (eighth s.cluster e z.shape) m)

-- A plan for an image of `size` bytes. The L1 table has an entry for each part of the image, and its
-- clusters hold it. The refcount blocks have an entry for each cluster that is written at first and for each
-- cluster of data; L2 tables that are made later are not among them. The refcount table lists the blocks.
-- The regions follow each other with no gap, and the metadata ends where `phys_meta` says.
pub record IsPlanned (size : ℕ) (l : Layout) : Type 0 where
  pub l1_covers : size ≤ l.l1_size * (l.cluster_size / 8 * l.cluster_size)
  pub l1_fits : l.l1_size * 8 ≤ l.l1_clusters * l.cluster_size
  pub counted :
      size + l.phys_meta * l.cluster_size ≤ l.refblock_cnt * (l.cluster_size / 2) * l.cluster_size
  pub listed : l.refblock_cnt ≤ l.reftable_cls * (l.cluster_size / 8)
  pub marked : 2 * l.phys_meta ≤ l.ref_used_cls * l.cluster_size
  pub in_blocks : l.ref_used_cls ≤ l.refblock_cnt
  pub header : l.reftable_off ≡ l.cluster_size
  pub table : l.refblock_off ≡ l.reftable_off + l.reftable_cls * l.cluster_size
  pub blocks : l.l1_off ≡ l.refblock_off + l.refblock_cnt * l.cluster_size
  pub l1 : l.l2_off ≡ l.l1_off + l.l1_clusters * l.cluster_size
  pub l2 : l.l2_off + l.l2_count * l.cluster_size ≡ l.phys_meta * l.cluster_size

as_halves : (x c e : ℕ) → IsCluster c e → x * c ≡ 2 * (x * (4 * e))
as_halves x c e k = subst (λ (y : ℕ). x * y ≡ 2 * (x * (4 * e))) (sym k.eighths) (omega arith)

as_eighths : (x c e : ℕ) → IsCluster c e → x * c ≡ 8 * (x * e)
as_eighths x c e k = subst (λ (y : ℕ). x * y ≡ 8 * (x * e)) (sym k.eighths) (omega arith)

used-le : (used r c m : ℕ) → used * c < 2 * m + c → 2 * m ≤ r * c → used ≤ r
used-le used r c m p q =
    let h : used < r + 1 = lt_of_mul-lt-mul_left c {m = used} {n = r + 1} (omega (arith, p, q)) in
    omega (arith, h)

plan-IsPlanned :
    (size e r t used : ℕ) (s : Sizes)
    → size ≤ 17592186044416
    → IsSized size e s
    → worst_blocks s r t ≡ r
    → worst_tables s r ≡ t
    → IsCeil (word (2 * phys_meta_of s r t)) s.cluster used
    → IsPlanned size (plan s r t used)
plan-IsPlanned size e r t used s h z n m u =
    let b = settled-IsBounded size e r t s h z n m in
    let k = z.shape in
    let l = table_small size s.cluster e s.l1_size h k z.l1 in
    let base = base-le size e s h z in
    let meta : phys_meta_of s r t ≡ 1 + t + r + s.l1_clusters + s.l2_count =
      omega (arith, base, b.small, b.few) in
    let c = s.cluster in
    let rc = as_halves r c e k in
    let tc = as_eighths t c e k in
    let lc : s.l1_size * c ≤ 1073741824 * 2097152 = mul-le-mul l (cluster-le c e k) in
    let nc : s.l2_count * c ≤ s.l1_size * c = mul-le-mul_right c z.preallocated in
    let small = cluster-le c e k in
    let at_table : refblock_offset s t ≡ c + t * c =
      omega (arith, tc, b.few, b.small, k.most, small) in
    let at_blocks : l1_offset s r t ≡ c + t * c + r * c =
      omega (arith, tc, rc, at_table, b.few, b.small, b.close, k.most, small, base) in
    let at_l1 : word (l1_offset s r t + s.l1_clusters * c) ≡ c + t * c + r * c + s.l1_clusters * c =
      omega (
        arith, tc, rc, at_blocks, z.l1_room.least, l, b.few, b.small, b.close, k.most, small, base,
      ) in
    let covers : phys_meta_of s r t + s.data_clusters ≤ r * (4 * e) =
      omega (arith, meta, b.covers) in
    let scaled : (phys_meta_of s r t + s.data_clusters) * c ≤ r * (4 * e) * c =
      mul-le-mul_right c covers in
    let spread : phys_meta_of s r t * c ≡ (1 + t + r + s.l1_clusters + s.l2_count) * c =
      ap (λ (x : ℕ). x * c) meta in
    record {
      l1_covers = subst (λ (x : ℕ). size ≤ s.l1_size * (x * c)) (sym (eighth c e k)) z.l1.enough;
      l1_fits = z.l1_room.enough;
      counted =
          subst (λ (x : ℕ). size + phys_meta_of s r t * c ≤ r * x * c) (sym (half c e k))
            (omega (arith, scaled, z.clusters.enough));
      listed = subst (λ (x : ℕ). r ≤ t * x) (sym (eighth c e k)) b.listed;
      marked = omega (arith, meta, base, b.small, b.few, u.enough);
      in_blocks =
          used-le used r c (phys_meta_of s r t) (omega (arith, u.least))
            (omega (arith, rc, covers));
      header = refl;
      table = omega (arith, at_table);
      blocks = omega (arith, at_table, at_blocks);
      l1 = omega (arith, at_l1, at_blocks);
      l2 = omega (arith, at_l1, spread);
    }

settled-IsPlanned :
    (size e : ℕ) (s : Sizes) (l : Layout)
    → size ≤ 17592186044416
    → IsSized size e s
    → IsSettled s l
    → IsPlanned size l
settled-IsPlanned size e s l h z f = subst (IsPlanned size) (sym f.planned) (
    plan-IsPlanned size e l.refblock_cnt l.reftable_cls l.ref_used_cls s h z f.blocks f.tables
      f.used)

layout_bits : (b : ℕ) → 9 ≤ b → b ≤ 21 → (ltb b 9 || ltb 21 b) ≡ false
layout_bits b lo hi = ground arith

-- For every size of at most 16 TiB and every size of cluster that qcow2 has, with tables preallocated or
-- not, the sizing returns a layout, within the rounds that it has: the L1 table reaches all of the image,
-- the refcount blocks have an entry for each cluster of the metadata that is written at first and of the
-- data, the refcount table has one for each block, and the regions follow each other from the header to the
-- end of that metadata. With tables that are not preallocated, the L2 tables made later are not counted.
pub compute_layout-IsPlanned :
    (size bits : ℕ) (pre : Bool)
    → size ≤ 17592186044416
    → 9 ≤ chosen_bits bits
    → chosen_bits bits ≤ 21
    → Succeeds (IsPlanned size) (compute_layout size bits pre)
unfolding compute_layout
compute_layout-IsPlanned size bits pre h lo hi =
    let b = chosen_bits bits in
    let e = 2 ^ (b - 3) in
    let inside : (ltb b 9 || ltb 21 b) ≡ false = layout_bits b lo hi in
    let small : ltb 17592186044416 size ≡ false = ground (arith, h) in
    rw (inside, small)
      (bind-Succeeds (IsSized size e) (IsPlanned size) (size_up size b (2 ^ b) pre)
        (λ s. converge 32 s 1 1) (size_up-Succeeds size b (2 ^ b) e pre h (pow-IsCluster b lo hi))
        (λ s z.
          let l = converge-Succeeds size e s h z in
          record {
            value = l.value;
            made = l.made;
            holds = settled-IsPlanned size e s l.value h z l.holds;
          }))
