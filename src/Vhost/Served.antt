-- ===== src/Vhost/Served.antt =====
-- internal/vhost/vu: from the messages that set a queue up to the requests that the device gets.
use native.Mathlib.Nat.{mod-lt}
use pvm.Prelude.{
  ℕ, zero, suc, ◌+◌, ◌*◌, ◌%◌, ◌≤◌, ◌<◌, ◌≡◌, refl, Option, none, some, List, [], ◌∷◌, ◌==◌,
  nat_comparable, ltb, arith, Result, ok, err, inl, inr, Bool-cases, All,
}
use pvm.Vhost.Memory.{Error, empty_chain, Guest, Region, u16, u32}
use pvm.Vhost.Ring.{
  RawDesc, Elem, Vring, is_indirect, desc_at, visit_direct, has_next, add_desc, visit, walked,
  go_on, walk, walk_chain, pop, chained, take_head, pop_from, avail_idx,
}
use pvm.Vhost.Mapped.{IsRegion}
use pvm.Vhost.Request.{
  Gives, bind-Gives, IsRequest, IsReady, Below, IsDesc, Visited, desc_at-Gives, u16-Gives,
  u32-Gives, visit_indirect-Gives, follow-Gives, add_desc-Gives,
}

module _ (rs : List Region) (g : Guest) where
  visit-Gives :
      (v : Vring) (idx : ℕ) (e : Elem)
      → All IsRegion rs
      → IsReady v
      → IsRequest e
      → Gives Visited (visit rs g v idx e)
  unfolding visit visit_direct
  visit-Gives v idx e t k h =
      bind-Gives IsDesc Visited (desc_at v idx) _ (desc_at-Gives v idx k) (λ d l.
        bind-Gives (Below 65535) Visited (u16 g d 12) _ (u16-Gives g d 12 (omega arith)) (λ flags _.
          elim (Bool-cases (is_indirect flags)) [
            | inl indirect ↦ rw indirect (visit_indirect-Gives rs g d flags e t l h)
            | inr direct ↦ rw direct (
                bind-Gives IsRequest Visited (add_desc g d 0 e) _
                  (add_desc-Gives g d 0 e (omega arith) h)
                  (λ e' h'.
                    follow-Gives e' (has_next flags) (u16 g d 14) (u16-Gives g d 14 (omega arith))
                      h'))
          ]))

  walked-Gives : (e : Elem) → IsRequest e → Gives IsRequest (walked e)
  walked-Gives e h = walked_raw e.raw
    where
      walked_raw :
          (ds : List RawDesc) → Gives IsRequest (elim ds [ [] ↦ err empty_chain | d ∷ ds ↦ ok e ])
      walked_raw [] = ground arith
      walked_raw (d ∷ ds) = h

  go_on-Gives :
      (next : ℕ → Elem → Result Error Elem) (e : Elem) (o : Option ℕ)
      → ((idx : ℕ) (e' : Elem) → IsRequest e' → Gives IsRequest (next idx e'))
      → IsRequest e
      → Gives IsRequest (go_on next (e, o))
  go_on-Gives next e none f h = walked-Gives e h
  go_on-Gives next e (some idx) f h = f idx e h

  walk-Gives :
      (v : Vring) (k seen idx : ℕ) (e : Elem)
      → All IsRegion rs
      → IsReady v
      → IsRequest e
      → Gives IsRequest (walk rs g v k seen idx e)
  unfolding walk
  walk-Gives v zero seen idx e t r h = ground arith
  walk-Gives v (suc k) seen idx e t r h = elim (Bool-cases (ltb (v.num * 2) seen)) [
    | inl over ↦ rw (over, walk) (ground arith)
    | inr under ↦
        rw (under, walk)
          (bind-Gives Visited IsRequest (visit rs g v idx e) _ (visit-Gives v idx e t r h) (λ p q.
            go_on-Gives (λ next e'. walk rs g v k (seen + 1) next e') p.0 p.1
              (λ next e' h'. walk-Gives v k (seen + 1) next e' t r h') q))
  ]

  -- What `pop` gives, if it gives something.
  abbrev pub Popped : Option Elem → Type 0
  Popped none = Unit
  Popped (some e) = IsRequest e

  chained-Gives :
      (v : Vring) (r : Result Error Elem) → Gives IsRequest r → Gives Popped (chained v r).1
  chained-Gives v (ok e) h = h
  chained-Gives v (err x) h = h

  take_head-Gives :
      (v : Vring) (r : Result Error ℕ)
      → All IsRegion rs
      → IsReady v
      → Gives (Below 65535) r
      → Gives Popped (take_head rs g v r).1
  unfolding walk_chain
  take_head-Gives v (err x) t k h = h
  take_head-Gives v (ok head) t k h =
      let v' = record v { last_avail = (v.last_avail + 1) % 65536 } in
      chained-Gives v' (walk_chain rs g v' head) (
        walk-Gives v' (v.num * 2 + 2) 0 head
          (record { head = head; out_sg = []; in_sg = []; raw = [] }) t
          (record {
            some_num = k.some_num;
            desc = k.desc;
            is_desc = k.is_desc;
            desc_len = k.desc_len;
            avail = k.avail;
            is_avail = k.is_avail;
            avail_len = k.avail_len;
          })
          (tt, refl, refl))

  slot_fits : (n last len : ℕ) → 0 < n → len ≡ 4 + n * 2 → 4 + last % n * 2 + 2 ≤ len
  slot_fits n last len p q = omega (arith, mod-lt last p)

  pop_from-Gives :
      (v : Vring) (r : Result Error ℕ)
      → All IsRegion rs
      → (k : IsReady v) → Gives (Below 65535) r
      → Gives Popped (pop_from rs g v k.avail r).1
  pop_from-Gives v (err x) t k h = h
  pop_from-Gives v (ok idx) t k h = elim (Bool-cases (idx == v.last_avail % 65536)) [
    | inl drained ↦ rw drained tt
    | inr more ↦ elim (Bool-cases (v.num == 0)) [
      | inl zero? ↦ absurd (ground (arith, zero?, k.some_num))
      | inr some? ↦
          rw (more, some?)
            (take_head-Gives v (u16 g k.avail (4 + v.last_avail % 65536 % v.num * 2)) t k (
              u16-Gives g k.avail (4 + v.last_avail % 65536 % v.num * 2)
                (slot_fits v.num (v.last_avail % 65536) k.avail.len k.some_num k.avail_len)))
    ]
  ]

  pub pop-Gives : (v : Vring) → All IsRegion rs → IsReady v → Gives Popped (pop rs g v).1
  unfolding pop
  pop-Gives v t k =
      rw (k.is_desc, k.is_avail, pop)
        (pop_from-Gives v (avail_idx g k.avail) t k (
          bind-Gives (Below 4294967295) (Below 65535) (u32 g k.avail 0) _
            (u32-Gives g k.avail 0 (omega (arith, k.avail_len))) (λ word w. omega arith)))
