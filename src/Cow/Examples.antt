-- ===== src/Cow/Examples.antt =====
-- internal/cow/qcow2.go: images of some sizes.
use pvm.Prelude.{◌≡◌, refl, true, ok, err, arith}
use pvm.Cow.Layout.{Layout, compute_layout, bits_range, too_large}
use pvm.Cow.Settled.{Succeeds}
use pvm.Cow.Covered.{IsPlanned, compute_layout-IsPlanned}

-- 1 GiB in clusters of 4 KiB, with the L2 tables preallocated.
abbrev gib : Layout
gib = record {
  cluster_bits = 12;
  cluster_size = 4096;
  l1_size = 512;
  l1_clusters = 1;
  l2_count = 512;
  reftable_cls = 1;
  refblock_cnt = 129;
  ref_used_cls = 1;
  phys_meta = 644;
  reftable_off = 4096;
  refblock_off = 8192;
  l1_off = 536576;
  l2_off = 540672;
}

test_gib : compute_layout 1073741824 0 true ≡ ok gib
unfolding compute_layout
test_gib = refl

test_bits : compute_layout 1073741824 22 true ≡ err bits_range
unfolding compute_layout
test_bits = refl

test_cap : compute_layout 17592186044417 12 true ≡ err too_large
unfolding compute_layout
test_cap = refl

compute_layout-IsPlanned_example :
    Succeeds (IsPlanned 17592186044416) (compute_layout 17592186044416 9 true)
compute_layout-IsPlanned_example =
    compute_layout-IsPlanned 17592186044416 9 true (omega arith) (omega arith) (omega arith)
