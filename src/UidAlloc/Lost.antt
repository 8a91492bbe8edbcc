-- ===== src/UidAlloc/Lost.antt =====
-- A write of the table of internal/uidalloc/uidalloc.go that stops right after `Truncate`.
use pvm.Prelude.{ℕ, String, ◌≡◌, refl, true, ok}
use pvm.Prelude.Dict.{Dict, get}
use pvm.UidAlloc.Table.{
  table, Disk, nothing, whole, decode, write, mutate, assign, lowest_free, seek_base, used,
  allocate, release, valid_id,
}

abbrev pub working : Disk
working = record {
  state_dir = true;
  open_table = true;
  lock_table = true;
  stat_table = true;
  encode = true;
  truncate = true;
  write_at = whole;
  sync = true;
}

-- Everything works, but `WriteAt` writes no byte.
abbrev pub cut_off : Disk
cut_off = record working { write_at = nothing }

-- When the write of a `Release` fails, or the machine stops, right after `Truncate`, the file is empty, which
-- `decode` reads as a table without allocations: the next `Allocate`, of any container, returns the
-- first range, whichever container of the lost table still has it.
pub allocate-cut_off :
    (d : Dict String ℕ) (gone id : String)
    → valid_id id ≡ true
    → (allocate working (release cut_off (table d) gone).0 id).1 ≡ ok 100000
unfolding allocate release mutate decode write assign lowest_free seek_base used get
allocate-cut_off d gone id v = rw (v, allocate) refl
