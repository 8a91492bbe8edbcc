-- ===== src/Cow/Layout.antt =====
-- internal/cow/qcow2.go: `divCeil` and `computeQcow2Layout`, the plan of a fresh image's metadata.
-- Every sum and product is on 64-bit words.
use pvm.Prelude.{
  ℕ, zero, suc, ◌+◌, ◌-◌, ◌*◌, ◌/◌, ◌%◌, ◌^◌, Bool, if◌then◌else◌, ◌&&◌, ◌||◌, ◌==◌, ltb,
  nat_comparable, Result, ok, err, ◌>>=◌,
}

-- `zero_divisor` and `overflow` are of `divCeil`, the others of the plan.
pub data Error : Type 0 where
  zero_divisor overflow bits_range too_large l1_overflow l1_too_large l1_clusters_overflow : Error
  data_overflow refblock_overflow diverged : Error

-- The low 64 bits.
abbrev pub word : ℕ → ℕ
word n = n % 18446744073709551616

unfoldable pub div_ceil : ℕ → ℕ → Result Error ℕ
div_ceil a b =
    if b == 0
    then err zero_divisor
    else if a % b == 0
    then ok (a / b)
    else if a / b == 18446744073709551615
    then err overflow
    else ok (a / b + 1)

-- The caller's own error in place of the one of `divCeil`.
abbrev pub relabel : Error → Result Error ℕ → Result Error ℕ
relabel e (ok n) = ok n
relabel e (err d) = err e

-- What is known of the image before its refcounts are sized.
pub record Sizes : Type 0 where
  pub bits : ℕ
  pub cluster : ℕ
  pub l1_size : ℕ
  pub l1_clusters : ℕ
  pub l2_count : ℕ
  pub data_clusters : ℕ

pub record Layout : Type 0 where
  pub cluster_bits : ℕ
  pub cluster_size : ℕ
  pub l1_size : ℕ
  pub l1_clusters : ℕ
  pub l2_count : ℕ
  pub reftable_cls : ℕ
  pub refblock_cnt : ℕ
  pub ref_used_cls : ℕ
  pub phys_meta : ℕ
  pub reftable_off : ℕ
  pub refblock_off : ℕ
  pub l1_off : ℕ
  pub l2_off : ℕ

-- `physMeta` for a number of refcount blocks and of table clusters.
abbrev pub phys_meta_of : Sizes → ℕ → ℕ → ℕ
phys_meta_of s blocks tables = word (1 + tables + blocks + s.l1_clusters + s.l2_count)

-- `nbW`: the blocks that cover the worst case.
abbrev pub worst_blocks : Sizes → ℕ → ℕ → ℕ
worst_blocks s blocks tables =
    word (word (phys_meta_of s blocks tables + s.data_clusters) + s.cluster / 2 - 1)
    / (s.cluster / 2)

-- `nt`: the table clusters that cover `n` blocks.
abbrev pub worst_tables : Sizes → ℕ → ℕ
worst_tables s n = word (n + s.cluster / 8 - 1) / (s.cluster / 8)

abbrev pub refblock_offset : Sizes → ℕ → ℕ
refblock_offset s tables = word ((1 + tables) * s.cluster)

abbrev pub l1_offset : Sizes → ℕ → ℕ → ℕ
l1_offset s blocks tables = word (refblock_offset s tables + blocks * s.cluster)

abbrev pub plan : Sizes → ℕ → ℕ → ℕ → Layout
plan s blocks tables used = record {
  cluster_bits = s.bits;
  cluster_size = s.cluster;
  l1_size = s.l1_size;
  l1_clusters = s.l1_clusters;
  l2_count = s.l2_count;
  reftable_cls = tables;
  refblock_cnt = blocks;
  ref_used_cls = used;
  phys_meta = phys_meta_of s blocks tables;
  reftable_off = s.cluster;
  refblock_off = refblock_offset s tables;
  l1_off = l1_offset s blocks tables;
  l2_off = word (l1_offset s blocks tables + s.l1_clusters * s.cluster);
}

-- The loop, with the rounds that are left.
unfoldable pub converge : ℕ → Sizes → ℕ → ℕ → Result Error Layout
unfolding div_ceil
converge zero s blocks tables = err diverged
converge (suc k) s blocks tables =
    let n = worst_blocks s blocks tables in
    let t = worst_tables s n in
    let rest = converge k s n t in
    if n == blocks && t == tables
    then (relabel refblock_overflow (div_ceil (word (2 * phys_meta_of s blocks tables)) s.cluster)
        >>= λ used. ok (plan s blocks tables used))
    else rest

abbrev pub sizes_of : ℕ → ℕ → Bool → ℕ → ℕ → ℕ → Sizes
sizes_of bits cluster prealloc l1 l1_clusters clusters = record {
  bits = bits;
  cluster = cluster;
  l1_size = l1;
  l1_clusters = l1_clusters;
  l2_count = if prealloc then l1 else 0;
  data_clusters = clusters;
}

-- The clusters of an L1 table, and of the data.
unfoldable pub size_data : ℕ → ℕ → ℕ → Bool → ℕ → Result Error Sizes
unfolding div_ceil
size_data size bits cluster prealloc l1 = do
  l1_clusters ← relabel l1_clusters_overflow (div_ceil (word (l1 * 8)) cluster)
  clusters ← relabel data_overflow (div_ceil size cluster)
  ok (sizes_of bits cluster prealloc l1 l1_clusters clusters)

-- The sizes of the L1 table and of the data.
unfoldable pub size_up : ℕ → ℕ → ℕ → Bool → Result Error Sizes
unfolding div_ceil size_data
size_up size bits cluster prealloc = do
  l1 ← relabel l1_overflow (div_ceil size (word (cluster / 8 * cluster)))
  if ltb 4294967295 l1 then err l1_too_large else size_data size bits cluster prealloc l1

-- `bits` after the default.
abbrev pub chosen_bits : ℕ → ℕ
chosen_bits bits = if bits == 0 then 12 else bits

-- `computeQcow2Layout`
unfoldable pub compute_layout : ℕ → ℕ → Bool → Result Error Layout
unfolding size_up converge
compute_layout size bits prealloc =
    if ltb (chosen_bits bits) 9 || ltb 21 (chosen_bits bits)
    then err bits_range
    else if ltb 17592186044416 size
    then err too_large
    else size_up size (chosen_bits bits) (2 ^ chosen_bits bits) prealloc >>= λ s. converge 32 s 1 1
