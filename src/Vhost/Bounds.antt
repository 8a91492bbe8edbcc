-- ===== src/Vhost/Bounds.antt =====
-- internal/vhost/vu/blk.go: a request reaches the backend only inside its size, and writes only where it may.
use pvm.Prelude.{
  ℕ, zero, suc, ◌+◌, ◌*◌, ◌≤◌, ◌≡◌, refl, subst, true, false, not, ◌||◌, List, [], ◌∷◌, ◌==◌,
  nat_comparable, length, take, length-append, ltb, arith, Result, ok, err, inl, inr, Bool-cases,
  All,
}
use pvm.Vhost.Memory.{Error, Guest, Slice, byte_at}
use pvm.Vhost.Ring.{Elem}
use pvm.Vhost.Block.{
  BlkDev, Outcome, Access, reads, writes, syncs, Effect, in_range, sg_len, bytes_from, overlay,
  sg_gather, serve_in, written, serve_out, serve_flush, serve_id, serve, put_status, split_last,
  process_with, headed, process,
}

-- An access of the backend that the device may make.
abbrev pub Within : BlkDev → Access → Type 0
Within d (reads off n) = off + n ≤ d.size
Within d (writes off n) = (off + n ≤ d.size) × (d.ro ≡ false)
Within d syncs = Unit

-- What a request may do to the device.
pub record InBounds (d : BlkDev) (e : Effect) : Type 0 where
  pub within : All (Within d) e.log
  pub size : e.device.size ≡ d.size
  pub read_only : d.ro ≡ true → (j : ℕ) → e.device.content j ≡ d.content j
  pub outside : (j : ℕ) → d.size ≤ j → e.device.content j ≡ d.content j

in_range-fits : (d : BlkDev) (sector n : ℕ) → in_range d sector n ≡ true → sector * 512 + n ≤ d.size
unfolding in_range
in_range-fits d sector n h = ground arith

length-bytes_from : (at : ℕ → ℕ) (i n : ℕ) → length (bytes_from at i n) ≡ n
length-bytes_from at i zero = refl
length-bytes_from at i (suc n) = omega (arith, length-bytes_from at (i + 1) n)

length-sg_gather : (g : Guest) (ss : List Slice) → length (sg_gather g ss) ≡ sg_len ss
unfolding sg_gather sg_len
length-sg_gather g [] = refl
length-sg_gather g (s ∷ ss) = omega (
  arith,
  length-append (bytes_from (byte_at g s) 0 s.len) (sg_gather g ss),
  length-bytes_from (byte_at g s) 0 s.len,
  length-sg_gather g ss,
)

length-take_le {ℓ} : {A : Type ℓ} (n : ℕ) (xs : List A) → length (take n xs) ≤ length xs
length-take_le zero xs = omega arith
length-take_le (suc n) [] = omega arith
length-take_le (suc n) (x ∷ xs) = omega (arith, length-take_le n xs)

overlay-outside :
    (xs : List ℕ) (i : ℕ) (at : ℕ → ℕ) (j : ℕ) → i + length xs ≤ j → overlay xs i at j ≡ at j
overlay-outside [] i at j h = refl
overlay-outside (x ∷ xs) i at j h = ground (arith, overlay-outside xs (i + 1) at j)

-- An effect that leaves the device as it was.
untouched : (d : BlkDev) (e : Effect) → e.device ≡ d → All (Within d) e.log → InBounds d e
untouched d e q w = record {
  within = w;
  size = rw q refl;
  read_only = λ r j. rw q refl;
  outside = λ j l. rw q refl;
}

serve_in-InBounds :
    (d : BlkDev) (io : Outcome) (g : Guest) (sector : ℕ) (ss : List Slice)
    → InBounds d (serve_in d io g sector ss)
unfolding serve_in
serve_in-InBounds d io g sector ss = elim (Bool-cases (in_range d sector (sg_len ss))) [
  | inr beyond ↦ rw (beyond, serve_in) (untouched d _ refl tt)
  | inl inside ↦ elim (Bool-cases io.read_ok) [
    | inl fine ↦
        rw (inside, fine, serve_in)
          (untouched d _ refl (in_range-fits d sector (sg_len ss) inside, tt))
    | inr bad ↦
        rw (inside, bad, serve_in)
          (untouched d _ refl (in_range-fits d sector (sg_len ss) inside, tt))
  ]
]

-- Bytes that fit into the range of the request.
write-InBounds :
    (d : BlkDev) (e : Effect) (off n : ℕ) (xs : List ℕ)
    → d.ro ≡ false
    → off + n ≤ d.size
    → length xs ≤ n
    → e.device ≡ written d off xs
    → e.log ≡ writes off n ∷ []
    → InBounds d e
unfolding written
write-InBounds d e off n xs w f l q o = record {
  within = rw o ((f, w), tt);
  size = rw q refl;
  read_only = λ r j. cc;
  outside = λ j m. rw q (overlay-outside xs off d.content j (omega arith));
}

serve_out-may :
    (d : BlkDev) (sector n : ℕ)
    → (d.ro || not (in_range d sector n)) ≡ false
    → (d.ro ≡ false) × (sector * 512 + n ≤ d.size)
serve_out-may d sector n h = ground (arith, in_range-fits d sector n)

serve_out-InBounds :
    (d : BlkDev) (io : Outcome) (g : Guest) (sector : ℕ) (ss : List Slice)
    → InBounds d (serve_out d io g sector ss)
unfolding serve_out
serve_out-InBounds d io g sector ss =
    elim (Bool-cases (d.ro || not (in_range d sector (sg_len ss)))) [
      | inl refused ↦ rw (refused, serve_out) (untouched d _ refl tt)
      | inr accepted ↦
          let (may, fits) = serve_out-may d sector (sg_len ss) accepted in
          elim (Bool-cases io.write_ok) [
            | inl fine ↦
                rw (accepted, fine, serve_out)
                  (write-InBounds d _ (sector * 512) (sg_len ss) (sg_gather g ss) may fits
                    (omega (arith, length-sg_gather g ss)) refl refl)
            | inr bad ↦
                rw (accepted, bad, serve_out)
                  (write-InBounds d _ (sector * 512) (sg_len ss) (take io.put (sg_gather g ss)) may
                    fits
                    (omega (arith, length-sg_gather g ss, length-take_le io.put (sg_gather g ss)))
                    refl refl)
          ]
    ]

serve_flush-InBounds : (d : BlkDev) (io : Outcome) (g : Guest) → InBounds d (serve_flush d io g)
serve_flush-InBounds d io g = elim (Bool-cases io.sync_ok) [
  | inl fine ↦ rw fine (untouched d _ refl (tt, tt))
  | inr bad ↦ rw bad (untouched d _ refl (tt, tt))
]

serve-InBounds :
    (d : BlkDev) (io : Outcome) (g : Guest) (typ sector : ℕ) (data_out data_in : List Slice)
    → InBounds d (serve d io g typ sector data_out data_in)
unfolding serve serve_id
serve-InBounds d io g typ sector data_out data_in = elim (Bool-cases (typ == 0)) [
  | inl in? ↦ rw (in?, serve) (serve_in-InBounds d io g sector data_in)
  | inr a ↦ elim (Bool-cases (typ == 1)) [
    | inl out? ↦ rw (a, out?, serve) (serve_out-InBounds d io g sector data_out)
    | inr b ↦ elim (Bool-cases (typ == 4)) [
      | inl flush? ↦ rw (a, b, flush?, serve) (serve_flush-InBounds d io g)
      | inr c ↦ elim (Bool-cases (typ == 8)) [
        | inl id? ↦ rw (a, b, c, id?, serve) (untouched d (serve_id d g data_in) refl tt)
        | inr other ↦ rw (a, b, c, other, serve) (untouched d _ refl tt)
      ]
    ]
  ]
]

abbrev Sound : BlkDev → Result Error Effect → Type 0
Sound d (ok e) = InBounds d e
Sound d (err x) = Unit

-- The status byte is the guest's.
put_status-InBounds :
    (d : BlkDev) (s : Slice) (e : Effect) → InBounds d e → InBounds d (put_status s e)
put_status-InBounds d s e h = record {
  within = h.within;
  size = h.size;
  read_only = h.read_only;
  outside = h.outside;
}

process_with-Sound :
    (d : BlkDev) (io : Outcome) (g : Guest) (out : Slice) (data_out : List Slice)
    (p : List Slice × Slice)
    → Sound d (process_with d io g out data_out p)
process_with-Sound d io g out data_out (data_in, status) = elim (Bool-cases (ltb out.len 16)) [
  | inl short ↦ rw short tt
  | inr header ↦ elim (Bool-cases (ltb status.len 1)) [
    | inl none_left ↦ rw (header, none_left) tt
    | inr space ↦
        rw (header, space)
          (put_status-InBounds d status _ (serve-InBounds d io g _ _ data_out data_in))
  ]
]

headed-Sound :
    (d : BlkDev) (io : Outcome) (g : Guest) (outs ins : List Slice)
    → Sound d (headed d io g outs ins)
headed-Sound d io g [] ins = tt
headed-Sound d io g (out ∷ data_out) [] = tt
headed-Sound d io g (out ∷ data_out) (s ∷ ss) =
    process_with-Sound d io g out data_out (split_last s ss)

-- When `process` answers a request, each read and write of the backend that it made lies within the
-- device's size, it made no write to a read-only device, and what such a device holds, or any device
-- beyond its size, is as before; the size does not change.
pub process-InBounds :
    (d : BlkDev) (io : Outcome) (g : Guest) (e : Elem) (eff : Effect)
    → process d io g e ≡ ok eff
    → InBounds d eff
unfolding process
process-InBounds d io g e eff h = subst (Sound d) h (headed-Sound d io g e.out_sg e.in_sg)
