-- ===== src/Vhost/Examples.antt =====
-- A guest's queue of two descriptors, runs on it, and one use of each theorem about the device.
use pvm.Prelude.{
  ℕ, ◌+◌, ◌≡◌, ◌≢◌, refl, Bool, true, false, ◌||◌, none, some, [], ◌∷◌, ◌==◌, nat_comparable, arith,
  if◌then◌else◌, ok, err,
}
use pvm.Vhost.Memory.{
  panicked, stuck, Guest, Slice, Bytes, Table, sub, u16, u32, u64, le64, seek_region, translate,
  map_regions, set_mem_table, close_fds, close_table, fds_of,
}
use pvm.Vhost.Ring.{
  Elem, Vring, VringAddr, add_desc, desc_at, visit_indirect, visit_direct, visit, walk, walk_chain,
  pop, translate_sg, setup,
}
use pvm.Vhost.Walk.{walk_chain-ends}
use pvm.Vhost.Tables.{IsMapped}
use pvm.Vhost.Peer.{pop-IsMapped}
use pvm.Vhost.Fds.{occurrences, held-set_mem_table}
use pvm.Vhost.Block.{
  BlkDev, Outcome, Effect, in_range, sg_len, sg_gather, sg_copy, serve_in, written, serve_out,
  serve_id, serve, process,
}
use pvm.Vhost.Bounds.{InBounds, process-InBounds}

-- One region of 4096 bytes at 0, mapped from the fd 5.
abbrev payload : Bytes
payload = record { len = 40; at = λ i. if i == 0 then 1 else if i == 17 then 16 else 0 }

abbrev mmap : ℕ → ℕ → ℕ → Bool
mmap fd off size = true

abbrev no_table : Table
no_table = record { regions = []; closed = [] }

abbrev addr : VringAddr
addr = record { desc = 0; used = 128; avail = 64 }

abbrev queue : Vring
queue = record { num = 2; desc = none; avail = none; used = none; last_avail = 0; used_idx = 0 }

-- The first descriptor reads 16 bytes at 512 and goes on with the second, which writes one at 1024.
abbrev guest : Guest
guest r j =
    if j == 1
    then 2
    else if j == 8
    then 16
    else if j == 12 || j == 14 || j == 24
    then 1
    else if j == 17
    then 4
    else if j == 28
    then 2
    else if j == 66
    then 1
    else 0

abbrev table : Table
table = (set_mem_table mmap payload (5 ∷ []) no_table).0

queue_set : (setup table.regions addr queue).1 ≡ ok tt
unfolding setup translate seek_region sub set_mem_table map_regions close_table close_fds le64
queue_set = refl

abbrev request : Elem
request = record {
  head = 0;
  out_sg = [];
  in_sg = [];
  raw =
      record { addr = 512; length = 16; write = false }
      ∷ record { addr = 1024; length = 1; write = true }
      ∷ [];
}

pops : (pop table.regions guest (setup table.regions addr queue).0).1 ≡ ok (some request)
unfolding pop walk_chain walk visit visit_direct visit_indirect desc_at add_desc u16 u32 u64 setup
    translate seek_region sub set_mem_table map_regions close_table close_fds le64
pops = refl

-- The size of the queue raised after its tables were set up, which the control channel allows: the next
-- access of the avail ring is out of range.
num_raised :
    (pop table.regions guest
      (record (setup table.regions addr queue).0 { num = 4; last_avail = 2 })).1
    ≡ err panicked
unfolding pop walk_chain walk visit visit_direct visit_indirect desc_at add_desc u16 u32 u64 setup
    translate seek_region sub set_mem_table map_regions close_table close_fds le64
num_raised = refl

pop-IsMapped_example :
    ((pop table.regions guest (record (setup table.regions addr queue).0 { last_avail = 0 })).1
      ≢ err panicked)
    × ((e : Elem)
        → (pop table.regions guest (record (setup table.regions addr queue).0 { last_avail = 0 })).1
          ≡ ok (some e)
        → (translate_sg table.regions e ≢ err panicked)
          × ((e' : Elem) → translate_sg table.regions e ≡ ok e' → IsMapped table.regions e'))
pop-IsMapped_example =
    pop-IsMapped mmap payload (5 ∷ []) no_table addr queue guest 0 tt (omega arith, omega arith)
      queue_set

-- Two descriptors that name each other.
abbrev looping : Guest
looping r j = if j == 12 || j == 14 || j == 28 then 1 else if j == 8 || j == 24 then 16 else 0

walk_chain-ends_example :
    walk_chain table.regions looping (setup table.regions addr queue).0 0 ≢ err stuck
walk_chain-ends_example = walk_chain-ends table.regions looping (setup table.regions addr queue).0 0

-- The fd 6 is one too many.
held-set_mem_table_example :
    occurrences 6 (set_mem_table mmap payload (5 ∷ 6 ∷ []) no_table).0.closed
      + occurrences 6 (fds_of (set_mem_table mmap payload (5 ∷ 6 ∷ []) no_table).0.regions)
    ≡ 1
held-set_mem_table_example = held-set_mem_table 6 mmap payload (5 ∷ 6 ∷ []) no_table

abbrev device : BlkDev
device = record { size = 1024; ro = false; content = λ j. 0 }

abbrev outcome : Outcome
outcome = record { got = 0; read_ok = true; put = 0; write_ok = true; sync_ok = true }

abbrev place : ℕ → ℕ → Slice
place off len = record { region = 5; off = off; len = len; cap = 4096 }

-- A write of two bytes to the sector 1.
abbrev write_request : Elem
write_request = record {
  head = 0;
  out_sg = place 512 16 ∷ place 600 2 ∷ [];
  in_sg = place 1024 1 ∷ [];
  raw = [];
}

abbrev writing_guest : Guest
writing_guest r j = if j == 512 || j == 520 then 1 else if j == 600 then 7 else 0

abbrev effect : Effect
effect = elim (process device outcome writing_guest write_request) [
  | ok e ↦ e
  | err x ↦ record { status = 9; used_len = 0; guest = writing_guest; device = device; log = [] }
]

writes_sector : effect.device.content 512 ≡ 7
unfolding process serve serve_in serve_out serve_id in_range sg_len sg_gather sg_copy written le64
writes_sector = refl

served : process device outcome writing_guest write_request ≡ ok effect
unfolding process serve serve_in serve_out serve_id in_range sg_len sg_gather sg_copy written le64
served = refl

process-InBounds_example : InBounds device effect
process-InBounds_example = process-InBounds device outcome writing_guest write_request effect served
