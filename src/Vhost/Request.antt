-- ===== src/Vhost/Request.antt =====
-- internal/vhost/vu/vring.go: on a queue that `setup` has bound, `pop` is never out of range, and what it and
-- `translateSG` give to the device lies inside the memory table.
use pvm.Prelude.{
  ℕ, zero, suc, ◌+◌, ◌*◌, ◌/◌, ◌%◌, ◌≤◌, ◌<◌, ◌≡◌, ◌≢◌, Bool, true, false, Option, some, List, [],
  ◌∷◌, ◌++◌, ◌==◌, nat_comparable, ltb, leb, arith, Result, ok, err, ◌>>=◌, inl, inr, Bool-cases,
  All, le→leb,
}
use pvm.Vhost.Memory.{
  Error, panicked, Guest, Slice, u16, u32, u64, Region, translate, max64, le64, byte_at,
}
use pvm.Vhost.Ring.{
  RawDesc, Elem, Vring, has_next, is_write, raw_of, add_desc, walk_table, desc_at, visit_indirect,
  follow,
}
use pvm.Vhost.Mapped.{IsRegion, Translated, translate-Translated, sub-ok}

-- A value with a property, or an error that is no panic.
abbrev pub Gives {ℓ} : {A : Type ℓ} → (A → Type 0) → Result Error A → Type 0
Gives P (ok a) = P a
Gives P (err x) = x ≢ panicked

pub bind-Gives {ℓ κ} :
    {A : Type ℓ} {B : Type κ} (P : A → Type 0) (Q : B → Type 0) (r : Result Error A)
    (f : A → Result Error B)
    → Gives P r
    → ((a : A) → P a → Gives Q (f a))
    → Gives Q (r >>= f)
bind-Gives P Q (ok a) f p q = q a p
bind-Gives P Q (err y) f p q = p

-- A descriptor as the walk keeps it.
abbrev pub IsRaw : RawDesc → Type 0
IsRaw d = (d.addr ≤ max64) × (0 < d.length)

abbrev pub IsRequest : Elem → Type 0
IsRequest e = All IsRaw e.raw × (e.out_sg ≡ []) × (e.in_sg ≡ [])

abbrev pub Below : ℕ → ℕ → Type 0
Below n x = x ≤ n

pub le64-max : (at : ℕ → ℕ) (i : ℕ) → le64 at i ≤ max64
unfolding le64
le64-max at i = omega arith

pub u16-Gives : (g : Guest) (s : Slice) (i : ℕ) → i + 2 ≤ s.len → Gives (Below 65535) (u16 g s i)
unfolding u16
u16-Gives g s i h = rw (le→leb (i + 2) s.len h, u16) (omega arith)

pub u32-Gives :
    (g : Guest) (s : Slice) (i : ℕ) → i + 4 ≤ s.len → Gives (Below 4294967295) (u32 g s i)
unfolding u32
u32-Gives g s i h = rw (le→leb (i + 4) s.len h, u32) (omega arith)

u64-Gives : (g : Guest) (s : Slice) (i : ℕ) → i + 8 ≤ s.len → Gives (Below max64) (u64 g s i)
unfolding u64
u64-Gives g s i h = rw (le→leb (i + 8) s.len h, u64) (le64-max (byte_at g s) i)

pub All-snoc {ℓ} :
    {A : Type ℓ} (P : A → Type 0) (xs : List A) (x : A) → All P xs → P x → All P (xs ++ x ∷ [])
All-snoc P [] x h p = (p, tt)
All-snoc P (y ∷ xs) x h p = (h.0, All-snoc P xs x h.1 p)

raw_of-Gives :
    (addr len flags : ℕ) (e : Elem)
    → addr ≤ max64
    → IsRequest e
    → Gives IsRequest (raw_of addr len flags e)
raw_of-Gives addr len flags e a h = elim (Bool-cases (len == 0)) [
  | inl none_left ↦ rw none_left (ground arith)
  | inr some_left ↦ rw some_left (
    All-snoc IsRaw e.raw (record { addr = addr; length = len; write = is_write flags }) h.0
        (a, ground (arith, some_left)),
    h.1,
    h.2,
  )
]

pub add_desc-Gives :
    (g : Guest) (d : Slice) (i : ℕ) (e : Elem)
    → i + 16 ≤ d.len
    → IsRequest e
    → Gives IsRequest (add_desc g d i e)
unfolding add_desc
add_desc-Gives g d i e l h =
    bind-Gives (Below max64) IsRequest (u64 g d i) _ (u64-Gives g d i (omega arith)) (λ addr a.
      bind-Gives (Below 4294967295) IsRequest (u32 g d (i + 8)) _
        (u32-Gives g d (i + 8) (omega arith))
        (λ len _.
          bind-Gives (Below 65535) IsRequest (u16 g d (i + 12)) _
            (u16-Gives g d (i + 12) (omega arith)) (λ flags _. raw_of-Gives addr len flags e a h)))

walk_table-Gives :
    (g : Guest) (tbl : Slice) (k i : ℕ) (e : Elem)
    → (i + k) * 16 ≤ tbl.len
    → IsRequest e
    → Gives IsRequest (walk_table g tbl k i e)
unfolding walk_table
walk_table-Gives g tbl zero i e l h = ground arith
walk_table-Gives g tbl (suc k) i e l h =
    bind-Gives IsRequest IsRequest (add_desc g tbl (i * 16) e) _
      (add_desc-Gives g tbl (i * 16) e (omega arith) h)
      (λ e' h'.
        bind-Gives (Below 65535) IsRequest (u16 g tbl (i * 16 + 12)) _
          (u16-Gives g tbl (i * 16 + 12) (omega arith))
          (λ flags _. elim (Bool-cases (has_next flags)) [
            | inl next ↦ rw next (walk_table-Gives g tbl k (i + 1) e' (omega arith) h')
            | inr last ↦ rw last h'
          ]))

-- The tables of a queue as `setup` leaves them, for the queue's size.
pub record IsReady (v : Vring) : Type 0 where
  pub some_num : 0 < v.num
  pub desc : Slice
  pub is_desc : v.desc ≡ some desc
  pub desc_len : (desc.len ≡ v.num * 16) × (desc.len ≤ desc.cap)
  pub avail : Slice
  pub is_avail : v.avail ≡ some avail
  pub avail_len : avail.len ≡ 4 + v.num * 2

abbrev pub IsDesc : Slice → Type 0
IsDesc d = d.len ≡ 16

pub desc_at-Gives : (v : Vring) (idx : ℕ) → IsReady v → Gives IsDesc (desc_at v idx)
unfolding desc_at
desc_at-Gives v idx k = elim (Bool-cases (leb v.num idx)) [
  | inl high ↦ rw (high, desc_at) (ground arith)
  | inr low ↦
      rw (low, k.is_desc, desc_at)
        (rw
          (sub-ok k.desc (idx * 16) (idx * 16 + 16) (omega arith)
            (let below : idx < v.num = ground (arith, low) in omega (arith, k.desc_len)))
          (omega arith))
]

-- What a round gives: a request so far, whatever comes next.
abbrev pub Visited : Elem × Option ℕ → Type 0
Visited p = IsRequest p.0

pub follow-Gives :
    (e : Elem) (b : Bool) (r : Result Error ℕ)
    → Gives (Below 65535) r
    → IsRequest e
    → Gives Visited (follow e b r)
follow-Gives e false r p h = h
follow-Gives e true (ok n) p h = h
follow-Gives e true (err x) p h = p

abbrev IsTable : List Region → ℕ → Slice → Type 0
IsTable rs size s = s.len ≡ size

Translated-Gives :
    (rs : List Region) (size : ℕ) (r : Result Error Slice)
    → Translated rs size r
    → Gives (IsTable rs size) r
Translated-Gives rs size (ok s) h = h.1
Translated-Gives rs size (err x) h = ground arith

pub visit_indirect-Gives :
    (rs : List Region) (g : Guest) (d : Slice) (flags : ℕ) (e : Elem)
    → All IsRegion rs
    → IsDesc d
    → IsRequest e
    → Gives Visited (visit_indirect rs g d flags e)
unfolding visit_indirect
visit_indirect-Gives rs g d flags e t l h =
    bind-Gives (Below max64) Visited (u64 g d 0) _ (u64-Gives g d 0 (omega arith)) (λ taddr a.
      bind-Gives (Below 4294967295) Visited (u32 g d 8) _ (u32-Gives g d 8 (omega arith)) (λ tlen _.
        elim (Bool-cases (has_next flags)) [
          | inl next ↦ rw next (ground arith)
          | inr last ↦ elim (Bool-cases (ltb 0 (tlen % 16))) [
            | inl odd ↦ rw (last, odd) (ground arith)
            | inr whole ↦
                rw (last, whole)
                  (bind-Gives (IsTable rs tlen) Visited (translate rs taddr tlen) _
                    (Translated-Gives rs tlen (translate rs taddr tlen)
                      (translate-Translated rs taddr tlen t a))
                    (λ tbl q.
                      bind-Gives IsRequest Visited (walk_table g tbl (tlen / 16) 0 e) _
                        (walk_table-Gives g tbl (tlen / 16) 0 e (omega arith) h) (λ e' h'. h')))
          ]
        ]))
