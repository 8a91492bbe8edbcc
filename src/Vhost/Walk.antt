-- ===== src/Vhost/Walk.antt =====
-- internal/vhost/vu/vring.go: the rounds of `walkChain` on whatever the guest writes into its tables.
use pvm.Prelude.{
  ℕ, zero, suc, ◌+◌, ◌-◌, ◌*◌, ◌/◌, ◌%◌, ◌≤◌, ◌≡◌, ◌≢◌, refl, Bool, true, false, Option, none, some,
  List, [], ◌∷◌, nat_comparable, ltb, leb, arith, Result, ok, err, ◌>>=◌, inl, inr, Bool-cases,
  Option-cases,
}
use pvm.Vhost.Memory.{
  Error, stuck, empty_chain, Guest, Slice, sub, u16, u32, u64, Region, translate, seek_region,
}
use pvm.Vhost.Ring.{
  RawDesc, Elem, Vring, has_next, is_indirect, add_desc, walk_table, desc_at, visit_indirect,
  follow, visit_direct, visit, walked, go_on, walk, walk_chain,
}

-- A result other than that error.
abbrev pub Avoids {ℓ} : {A : Type ℓ} → Error → Result Error A → Type 0
Avoids x (ok _) = Unit
Avoids x (err y) = y ≢ x

pub bind-Avoids {ℓ κ} :
    {A : Type ℓ} {B : Type κ} (x : Error) (r : Result Error A) (f : A → Result Error B)
    → Avoids x r
    → ((a : A) → r ≡ ok a → Avoids x (f a))
    → Avoids x (r >>= f)
bind-Avoids x (ok a) f p q = q a refl
bind-Avoids x (err y) f p q = p

sub-ends : (s : Slice) (a b : ℕ) → Avoids stuck (sub s a b)
unfolding sub
sub-ends s a b = ground arith

u16-ends : (g : Guest) (s : Slice) (i : ℕ) → Avoids stuck (u16 g s i)
unfolding u16
u16-ends g s i = ground arith

u32-ends : (g : Guest) (s : Slice) (i : ℕ) → Avoids stuck (u32 g s i)
unfolding u32
u32-ends g s i = ground arith

u64-ends : (g : Guest) (s : Slice) (i : ℕ) → Avoids stuck (u64 g s i)
unfolding u64
u64-ends g s i = ground arith

seek_region-ends : (rs : List Region) (gpa size : ℕ) → Avoids stuck (seek_region rs gpa size)
unfolding seek_region
seek_region-ends [] gpa size = ground arith
seek_region-ends (r ∷ rs) gpa size =
    ground (arith, seek_region-ends rs gpa size, sub-ends _ (gpa - r.gpa) (gpa - r.gpa + size))

translate-ends : (rs : List Region) (gpa size : ℕ) → Avoids stuck (translate rs gpa size)
unfolding translate
translate-ends rs gpa size = ground (arith, seek_region-ends rs gpa size)

add_desc-ends : (g : Guest) (d : Slice) (i : ℕ) (e : Elem) → Avoids stuck (add_desc g d i e)
unfolding add_desc
add_desc-ends g d i e = bind-Avoids stuck (u64 g d i) _ (u64-ends g d i) (λ addr _.
    bind-Avoids stuck (u32 g d (i + 8)) _ (u32-ends g d (i + 8)) (λ len _.
      bind-Avoids stuck (u16 g d (i + 12)) _ (u16-ends g d (i + 12)) (λ flags _. ground arith)))

walk_table-ends :
    (g : Guest) (tbl : Slice) (k i : ℕ) (e : Elem) → Avoids stuck (walk_table g tbl k i e)
unfolding walk_table
walk_table-ends g tbl zero i e = ground arith
walk_table-ends g tbl (suc k) i e =
    bind-Avoids stuck (add_desc g tbl (i * 16) e) _ (add_desc-ends g tbl (i * 16) e) (λ e' _.
      bind-Avoids stuck (u16 g tbl (i * 16 + 12)) _ (u16-ends g tbl (i * 16 + 12))
        (λ flags _. ground (arith, walk_table-ends g tbl k (i + 1) e')))

desc_at-ends : (v : Vring) (idx : ℕ) → Avoids stuck (desc_at v idx)
unfolding desc_at
desc_at-ends v idx = elim (Bool-cases (leb v.num idx)) [
  | inl high ↦ rw (high, desc_at) (ground arith)
  | inr low ↦ elim (Option-cases v.desc) [
    | inl nil ↦ rw (low, nil, desc_at) (ground arith)
    | inr (d, q) ↦ rw (low, q, desc_at) (sub-ends d (idx * 16) (idx * 16 + 16))
  ]
]

follow-ends :
    (e : Elem) (b : Bool) (r : Result Error ℕ) → Avoids stuck r → Avoids stuck (follow e b r)
follow-ends e false r h = tt
follow-ends e true (ok n) h = tt
follow-ends e true (err x) h = h

visit_direct-ends :
    (g : Guest) (d : Slice) (flags : ℕ) (e : Elem) → Avoids stuck (visit_direct g d flags e)
unfolding visit_direct
visit_direct-ends g d flags e =
    bind-Avoids stuck (add_desc g d 0 e) _ (add_desc-ends g d 0 e)
      (λ e' _. follow-ends e' (has_next flags) (u16 g d 14) (u16-ends g d 14))

visit_indirect-ends :
    (rs : List Region) (g : Guest) (d : Slice) (flags : ℕ) (e : Elem)
    → Avoids stuck (visit_indirect rs g d flags e)
unfolding visit_indirect
visit_indirect-ends rs g d flags e = bind-Avoids stuck (u64 g d 0) _ (u64-ends g d 0) (λ taddr _.
    bind-Avoids stuck (u32 g d 8) _ (u32-ends g d 8) (λ tlen _. elim (Bool-cases (has_next flags)) [
      | inl next ↦ rw next (ground arith)
      | inr last ↦ elim (Bool-cases (ltb 0 (tlen % 16))) [
        | inl odd ↦ rw (last, odd) (ground arith)
        | inr whole ↦
            rw (last, whole)
              (bind-Avoids stuck (translate rs taddr tlen) _ (translate-ends rs taddr tlen)
                (λ tbl _.
                  bind-Avoids stuck (walk_table g tbl (tlen / 16) 0 e) _
                    (walk_table-ends g tbl (tlen / 16) 0 e) (λ e' _. tt)))
      ]
    ]))

visit-ends :
    (rs : List Region) (g : Guest) (v : Vring) (idx : ℕ) (e : Elem)
    → Avoids stuck (visit rs g v idx e)
unfolding visit
visit-ends rs g v idx e = bind-Avoids stuck (desc_at v idx) _ (desc_at-ends v idx) (λ d _.
    bind-Avoids stuck (u16 g d 12) _ (u16-ends g d 12) (λ flags _.
      elim (Bool-cases (is_indirect flags)) [
        | inl indirect ↦ rw indirect (visit_indirect-ends rs g d flags e)
        | inr direct ↦ rw direct (visit_direct-ends g d flags e)
      ]))

walked-ends : (e : Elem) → Avoids stuck (walked e)
walked-ends e = walked_raw e.raw
  where
    walked_raw :
        (ds : List RawDesc) → Avoids stuck (elim ds [ [] ↦ err empty_chain | d ∷ ds ↦ ok e ])
    walked_raw [] = ground arith
    walked_raw (d ∷ ds) = tt

go_on-ends :
    (next : ℕ → Elem → Result Error Elem) (e : Elem) (o : Option ℕ)
    → ((idx : ℕ) (e' : Elem) → Avoids stuck (next idx e'))
    → Avoids stuck (go_on next (e, o))
go_on-ends next e none h = walked-ends e
go_on-ends next e (some idx) h = h idx e

-- Fuel for the rounds up to the limit, and for the one that finds it passed.
walk-ends :
    (rs : List Region) (g : Guest) (v : Vring) (k seen idx : ℕ) (e : Elem)
    → v.num * 2 + 2 ≤ k + seen
    → seen ≤ v.num * 2 + 1
    → Avoids stuck (walk rs g v k seen idx e)
unfolding walk
walk-ends rs g v zero seen idx e f l = absurd (omega arith)
walk-ends rs g v (suc k) seen idx e f l = elim (Bool-cases (ltb (v.num * 2) seen)) [
  | inl over ↦ rw (over, walk) (ground arith)
  | inr under ↦
      rw (under, walk)
        (bind-Avoids stuck (visit rs g v idx e) _ (visit-ends rs g v idx e) (λ p _.
          go_on-ends (λ next e'. walk rs g v k (seen + 1) next e') p.0 p.1
            (λ next e'.
              walk-ends rs g v k (seen + 1) next e' (omega arith) (ground (arith, under)))))
]

Avoids-ne {ℓ} : {A : Type ℓ} (x : Error) (r : Result Error A) → Avoids x r → r ≢ err x
Avoids-ne x (ok a) h q = cc
Avoids-ne x (err y) h q = h (ground arith)

-- Whatever descriptors the guest has written, loops among them, the walk from any head comes to an end
-- within its `num * 2 + 2` rounds: it does not run out of them.
pub walk_chain-ends :
    (rs : List Region) (g : Guest) (v : Vring) (head : ℕ) → walk_chain rs g v head ≢ err stuck
unfolding walk_chain
walk_chain-ends rs g v head =
    Avoids-ne stuck (walk_chain rs g v head)
      (walk-ends rs g v (v.num * 2 + 2) 0 head _ (omega arith) (omega arith))
