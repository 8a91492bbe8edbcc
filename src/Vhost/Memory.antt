-- ===== src/Vhost/Memory.antt =====
-- internal/vhost/vu/mem.go: the memory table and `translate`. A byte slice is a place in a mapped region with
-- Go's length and capacity; what the guest has written there is an argument.
use pvm.Prelude.{
  ℕ, zero, suc, ◌+◌, ◌-◌, ◌*◌, ◌%◌, Bool, ◌&&◌, List, [], ◌∷◌, ◌++◌, map, length, ltb, leb,
  if◌then◌else◌, Result, ok, err,
}

-- `panicked` is a Go panic, and `stuck` is no Go value: a loop ran out of fuel.
pub data Error : Type 0 where
  panicked stuck : Error
  short_payload few_fds small_payload mmap_failed wraps outside : Error
  no_num misaligned unconfigured bad_index chain_loop : Error
  indirect_next indirect_len ran_off zero_length empty_chain : Error
  missing_headers small_header small_status : Error

pub record Bytes : Type 0 where
  pub len : ℕ
  pub at : ℕ → ℕ

-- binary.LittleEndian
abbrev pub le16 : (ℕ → ℕ) → ℕ → ℕ
le16 at i = at i % 256 + 256 * (at (i + 1) % 256)

abbrev pub le32 : (ℕ → ℕ) → ℕ → ℕ
le32 at i = le16 at i + 65536 * le16 at (i + 2)

unfoldable pub le64 : (ℕ → ℕ) → ℕ → ℕ
le64 at i = le32 at i + 4294967296 * le32 at (i + 4)

abbrev pub max64 : ℕ
max64 = 18446744073709551615

-- uint64 addition
abbrev pub add64 : ℕ → ℕ → ℕ
add64 a b = (a + b) % 18446744073709551616

-- What the guest has in each region, named by its fd.
abbrev pub Guest : Type 0
Guest = ℕ → ℕ → ℕ

pub record Slice : Type 0 where
  pub region : ℕ
  pub off : ℕ
  pub len : ℕ
  pub cap : ℕ

-- `s[a:b]`
unfoldable pub sub : Slice → ℕ → ℕ → Result Error Slice
sub s a b =
    if leb a b && leb b s.cap
    then ok (record { region = s.region; off = s.off + a; len = b - a; cap = s.cap - a })
    else err panicked

abbrev pub byte_at : Guest → Slice → ℕ → ℕ
byte_at g s i = g s.region (s.off + i)

-- Reading at `s[i:]`.
unfoldable pub u16 : Guest → Slice → ℕ → Result Error ℕ
u16 g s i = if leb (i + 2) s.len then ok (le16 (byte_at g s) i) else err panicked

unfoldable pub u32 : Guest → Slice → ℕ → Result Error ℕ
u32 g s i = if leb (i + 4) s.len then ok (le32 (byte_at g s) i) else err panicked

unfoldable pub u64 : Guest → Slice → ℕ → Result Error ℕ
unfolding le64
u64 g s i = if leb (i + 8) s.len then ok (le64 (byte_at g s) i) else err panicked

-- `mapped` is how many bytes are mapped.
pub record Region : Type 0 where
  pub gpa : ℕ
  pub size : ℕ
  pub mapped : ℕ
  pub fd : ℕ

abbrev pub whole : Region → Slice
whole r = record { region = r.fd; off = 0; len = r.mapped; cap = r.mapped }

abbrev pub spans : Region → ℕ → ℕ → Bool
spans r gpa size = leb r.gpa gpa && leb (add64 gpa size) (add64 r.gpa r.size)

unfoldable pub seek_region : List Region → ℕ → ℕ → Result Error Slice
unfolding sub
seek_region [] gpa size = err outside
seek_region (r ∷ rs) gpa size =
    let rest = seek_region rs gpa size in
    if spans r gpa size then sub (whole r) (gpa - r.gpa) (gpa - r.gpa + size) else rest

unfoldable pub translate : List Region → ℕ → ℕ → Result Error Slice
unfolding seek_region
translate rs gpa size = if ltb (max64 - gpa) size then err wraps else seek_region rs gpa size

-- The table, and the fds closed so far.
pub record Table : Type 0 where
  pub regions : List Region
  pub closed : List ℕ

abbrev pub fds_of : List Region → List ℕ
fds_of = map (λ r. r.fd)

unfoldable pub close_fds : List ℕ → Table → Table
close_fds fds t = record t { closed = t.closed ++ fds }

unfoldable pub close_table : Table → Table
close_table t = record { regions = []; closed = t.closed ++ fds_of t.regions }

abbrev pub region_of : Bytes → ℕ → ℕ → Region
region_of p i fd = record {
  gpa = le64 p.at (8 + i * 32);
  size = le64 p.at (8 + i * 32 + 8);
  mapped = le64 p.at (8 + i * 32 + 8);
  fd = fd;
}

-- The loop over the regions that are left. `mmap fd off size` says whether the kernel maps them.
unfoldable pub map_regions :
    (ℕ → ℕ → ℕ → Bool) → Bytes → ℕ → ℕ → List ℕ → Table → Table × Result Error (Unit {0})
unfolding close_fds close_table le64
map_regions mmap p zero i rest t = (close_fds rest t, ok tt)
map_regions mmap p (suc k) i [] t = (t, err panicked)
map_regions mmap p (suc k) i (fd ∷ rest) t =
    let rest_mapped =
      map_regions mmap p k (i + 1) rest
        (record t { regions = t.regions ++ region_of p i fd ∷ [] }) in
    if ltb (max64 - (region_of p i fd).gpa) (region_of p i fd).size
    then (close_fds (fd ∷ rest) (close_table t), err wraps)
    else if mmap fd (le64 p.at (8 + i * 32 + 24)) (region_of p i fd).size
    then rest_mapped
    else (close_fds (fd ∷ rest) (close_table t), err mmap_failed)

unfoldable pub set_mem_table :
    (ℕ → ℕ → ℕ → Bool) → Bytes → List ℕ → Table → Table × Result Error (Unit {0})
unfolding map_regions close_fds close_table
set_mem_table mmap p fds t =
    if ltb p.len 8
    then (close_fds fds t, err short_payload)
    else if ltb (length fds) (le32 p.at 0)
    then (close_fds fds t, err few_fds)
    else if ltb p.len (8 + le32 p.at 0 * 32)
    then (close_fds fds t, err small_payload)
    else map_regions mmap p (le32 p.at 0) 0 fds (close_table t)
