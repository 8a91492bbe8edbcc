-- ===== src/Vhost/Mapped.antt =====
-- internal/vhost/vu/mem.go and vring.go: every slice that the device touches lies inside a mapped region, and
-- no access of a table is out of range.
use pvm.Prelude.{
  ℕ, ◌+◌, ◌-◌, ◌≤◌, ◌≡◌, refl, true, List, [], ◌∷◌, nat_comparable, ltb, arith, Result, ok, err,
  inl, inr, Bool-cases, All, ◌⊎◌, le→leb,
}
use pvm.Vhost.Memory.{
  Error, outside, wraps, Slice, sub, Region, translate, seek_region, spans, whole, max64,
}

-- What `setMemTable` leaves: no region wraps around, and all of it is mapped.
abbrev pub IsRegion : Region → Type 0
IsRegion r = (r.gpa + r.size ≤ max64) × (r.mapped ≡ r.size)

-- A slice of one of the regions.
abbrev pub Lies : Region → Slice → Type 0
Lies r s = (s.region ≡ r.fd) × (s.off + s.len ≤ r.mapped)

abbrev pub InTable : List Region → Slice → Type 0
InTable [] s = ⊥
InTable (r ∷ rs) s = Lies r s ⊎ InTable rs s

-- What `translate` gives.
abbrev pub Translated : List Region → ℕ → Result Error Slice → Type 0
Translated rs size (ok s) = InTable rs s × (s.len ≡ size) × (s.len ≤ s.cap)
Translated rs size (err x) = (x ≡ wraps) ⊎ (x ≡ outside)

weaken :
    (r : Region) (rs : List Region) (size : ℕ) (p : Result Error Slice)
    → Translated rs size p
    → Translated (r ∷ rs) size p
weaken r rs size (ok s) h = (inr h.0, h.1, h.2)
weaken r rs size (err x) h = h

pub sub-ok :
    (s : Slice) (a b : ℕ)
    → a ≤ b
    → b ≤ s.cap
    → sub s a b ≡ ok (record { region = s.region; off = s.off + a; len = b - a; cap = s.cap - a })
unfolding sub
sub-ok s a b p q = rw (le→leb a b p, le→leb b s.cap q, sub) refl

spans-fits :
    (r : Region) (gpa size : ℕ)
    → IsRegion r
    → gpa + size ≤ max64
    → spans r gpa size ≡ true
    → (r.gpa ≤ gpa) × (gpa - r.gpa + size ≤ r.mapped)
spans-fits r gpa size h l q = (ground arith, ground arith)

seek_region-Translated :
    (rs : List Region) (gpa size : ℕ)
    → All IsRegion rs
    → gpa + size ≤ max64
    → Translated rs size (seek_region rs gpa size)
unfolding seek_region
seek_region-Translated [] gpa size h l = inr refl
seek_region-Translated (r ∷ rs) gpa size h l = elim (Bool-cases (spans r gpa size)) [
  | inr elsewhere ↦
      rw (elsewhere, seek_region)
        (weaken r rs size (seek_region rs gpa size) (seek_region-Translated rs gpa size h.1 l))
  | inl here ↦
      rw (here, seek_region)
        (let (low, high) = spans-fits r gpa size h.0 l here in
          rw (sub-ok (whole r) (gpa - r.gpa) (gpa - r.gpa + size) (omega arith) high)
            (inl (refl, omega arith), omega arith, omega arith))
]

-- The slice that `translate` gives for a range lies wholly inside one mapped region, and is of the length
-- asked for; otherwise the range wraps around or no region holds it. It never panics.
pub translate-Translated :
    (rs : List Region) (gpa size : ℕ)
    → All IsRegion rs
    → gpa ≤ max64
    → Translated rs size (translate rs gpa size)
unfolding translate
translate-Translated rs gpa size h l = elim (Bool-cases (ltb (max64 - gpa) size)) [
  | inl over ↦ rw (over, translate) (inl refl)
  | inr under ↦ rw (under, translate) (seek_region-Translated rs gpa size h (ground (arith, under)))
]
