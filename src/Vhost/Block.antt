-- ===== src/Vhost/Block.antt =====
-- internal/vhost/vu/blk.go: `inRange`, `process` and the copies between the buffers and the backend. What a
-- call of the backend reports is an argument; `content` is what the device holds.
use pvm.Prelude.{
  ℕ, zero, suc, ◌+◌, ◌-◌, ◌*◌, ◌%◌, Bool, false, not, ◌||◌, List, [], ◌∷◌, ◌++◌, ◌==◌,
  nat_comparable, take, drop, ltb, leb, if◌then◌else◌, Result, ok, err,
}
use pvm.Vhost.Memory.{
  Error, missing_headers, small_header, small_status, Guest, Slice, le32, le64, max64, byte_at,
}
use pvm.Vhost.Ring.{Elem}

pub record BlkDev : Type 0 where
  pub size : ℕ
  pub ro : Bool
  pub content : ℕ → ℕ

-- `got` bytes are read, `put` bytes reach the device; `io.EOF` is no error.
pub record Outcome : Type 0 where
  pub got : ℕ
  pub read_ok : Bool
  pub put : ℕ
  pub write_ok : Bool
  pub sync_ok : Bool

pub data Access : Type 0 where
  reads writes : ℕ → ℕ → Access
  syncs : Access

-- What a request leaves: the status byte, the length for the used ring, the guest's memory, the device,
-- and the calls of the backend.
pub record Effect : Type 0 where
  pub status : ℕ
  pub used_len : ℕ
  pub guest : Guest
  pub device : BlkDev
  pub log : List Access

unfoldable pub in_range : BlkDev → ℕ → ℕ → Bool
in_range d sector len =
    if ltb 36028797018963967 sector
    then false
    else if ltb (max64 - sector * 512) len
    then false
    else leb (sector * 512 + len) d.size

unfoldable pub sg_len : List Slice → ℕ
sg_len [] = 0
sg_len (s ∷ ss) = s.len + sg_len ss

abbrev pub bytes_from : (ℕ → ℕ) → ℕ → ℕ → List ℕ
bytes_from at i zero = []
bytes_from at i (suc n) = at i ∷ bytes_from at (i + 1) n

-- Bytes laid over what was there, from an offset on.
abbrev pub overlay : List ℕ → ℕ → (ℕ → ℕ) → ℕ → ℕ
overlay [] i at j = at j
overlay (x ∷ xs) i at j = let rest = overlay xs (i + 1) at j in if i == j then x else rest

abbrev pub put_bytes : Slice → List ℕ → Guest → Guest
put_bytes s xs g r j = if r == s.region then overlay xs s.off (g r) j else g r j

unfoldable pub sg_gather : Guest → List Slice → List ℕ
sg_gather g [] = []
sg_gather g (s ∷ ss) = bytes_from (byte_at g s) 0 s.len ++ sg_gather g ss

unfoldable pub sg_copy : List Slice → List ℕ → Guest → Guest
sg_copy [] data_left g = g
sg_copy (s ∷ ss) data_left g =
    sg_copy ss (drop s.len data_left) (put_bytes s (take s.len data_left) g)

abbrev pub failed : ℕ → Guest → BlkDev → List Access → Effect
failed used g d log = record { status = 1; used_len = used; guest = g; device = d; log = log }

abbrev pub done : ℕ → Guest → BlkDev → List Access → Effect
done used g d log = record { status = 0; used_len = used; guest = g; device = d; log = log }

unfoldable pub serve_in : BlkDev → Outcome → Guest → ℕ → List Slice → Effect
unfolding in_range sg_len sg_copy
serve_in d io g sector data_in =
    if not (in_range d sector (sg_len data_in))
    then failed 1 g d []
    else if io.read_ok
    then done used (sg_copy data_in (bytes_from d.content (sector * 512) io.got) g) d log
    else failed used g d log
  where
    used : ℕ
    used = (io.got + 1) % 4294967296

    log : List Access
    log = reads (sector * 512) (sg_len data_in) ∷ []

unfoldable pub written : BlkDev → ℕ → List ℕ → BlkDev
written d off xs = record d { content = overlay xs off d.content }

unfoldable pub serve_out : BlkDev → Outcome → Guest → ℕ → List Slice → Effect
unfolding in_range sg_len sg_gather written
serve_out d io g sector data_out =
    if d.ro || not (in_range d sector (sg_len data_out))
    then failed 1 g d []
    else if io.write_ok
    then done 1 g (written d (sector * 512) (sg_gather g data_out)) log
    else failed 1 g (written d (sector * 512) (take io.put (sg_gather g data_out))) log
  where
    log : List Access
    log = writes (sector * 512) (sg_len data_out) ∷ []

abbrev pub serve_flush : BlkDev → Outcome → Guest → Effect
serve_flush d io g = if io.sync_ok then done 1 g d (syncs ∷ []) else failed 1 g d (syncs ∷ [])

-- The bytes of "pvm-vublk".
abbrev blk_id : List ℕ
blk_id = 112 ∷ 118 ∷ 109 ∷ 45 ∷ 118 ∷ 117 ∷ 98 ∷ 108 ∷ 107 ∷ []

unfoldable pub serve_id : BlkDev → Guest → List Slice → Effect
unfolding sg_len sg_copy
serve_id d g data_in = done (n + 1) (sg_copy data_in (take n blk_id) g) d []
  where
    n : ℕ
    n = if ltb 20 (sg_len data_in) then 20 else sg_len data_in

-- `typ` is without its barrier bit.
unfoldable pub serve : BlkDev → Outcome → Guest → ℕ → ℕ → List Slice → List Slice → Effect
unfolding serve_in serve_out serve_id
serve d io g typ sector data_out data_in =
    if typ == 0
    then serve_in d io g sector data_in
    else if typ == 1
    then serve_out d io g sector data_out
    else if typ == 4
    then serve_flush d io g
    else if typ == 8
    then serve_id d g data_in
    else record { status = 2; used_len = 1; guest = g; device = d; log = [] }

abbrev pub put_status : Slice → Effect → Effect
put_status s e = record e { guest = put_bytes s (e.status ∷ []) e.guest }

-- All but the last, and the last.
abbrev pub split_last : Slice → List Slice → List Slice × Slice
split_last s [] = ([], s)
split_last s (t ∷ ts) = let (init, last) = split_last t ts in (s ∷ init, last)

abbrev pub process_with :
    BlkDev → Outcome → Guest → Slice → List Slice → List Slice × Slice → Result Error Effect
process_with d io g out data_out (data_in, status) =
    if ltb out.len 16
    then err small_header
    else if ltb status.len 1
    then err small_status
    else ok (
        put_status status (
          serve d io g (le32 (byte_at g out) 0 % 2147483648) (le64 (byte_at g out) 8) data_out
            data_in))

abbrev pub headed : BlkDev → Outcome → Guest → List Slice → List Slice → Result Error Effect
headed d io g [] ins = err missing_headers
headed d io g (out ∷ data_out) [] = err missing_headers
headed d io g (out ∷ data_out) (s ∷ ss) = process_with d io g out data_out (split_last s ss)

unfoldable pub process : BlkDev → Outcome → Guest → Elem → Result Error Effect
unfolding serve le64
process d io g e = headed d io g e.out_sg e.in_sg
