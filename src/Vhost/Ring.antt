-- ===== src/Vhost/Ring.antt =====
-- internal/vhost/vu/vring.go: a split virtqueue in guest memory.
use pvm.Prelude.{
  ℕ, zero, suc, ◌+◌, ◌*◌, ◌/◌, ◌%◌, Bool, true, false, Option, none, some, List, [], ◌∷◌, ◌++◌,
  ◌==◌, nat_comparable, ltb, leb, if◌then◌else◌, Result, ok, err, ◌>>=◌,
}
use pvm.Vhost.Memory.{
  Error, panicked, stuck, no_num, misaligned, unconfigured, bad_index, chain_loop, indirect_next,
  indirect_len, ran_off, zero_length, empty_chain, Guest, Slice, sub, u16, u32, u64, Region,
  translate,
}

pub record RawDesc : Type 0 where
  pub addr : ℕ
  pub length : ℕ
  pub write : Bool

pub record Elem : Type 0 where
  pub head : ℕ
  pub out_sg : List Slice
  pub in_sg : List Slice
  pub raw : List RawDesc

-- `none` is a nil slice. The eventfds are left out.
pub record Vring : Type 0 where
  pub num : ℕ
  pub desc : Option Slice
  pub avail : Option Slice
  pub used : Option Slice
  pub last_avail : ℕ
  pub used_idx : ℕ

pub record VringAddr : Type 0 where
  pub desc : ℕ
  pub used : ℕ
  pub avail : ℕ

-- The flag bits 1, 2 and 4.
abbrev pub has_next : ℕ → Bool
has_next flags = flags % 2 == 1

abbrev pub is_write : ℕ → Bool
is_write flags = flags / 2 % 2 == 1

abbrev pub is_indirect : ℕ → Bool
is_indirect flags = flags / 4 % 2 == 1

-- A mapping starts at a page, so that an address is aligned as its offset is.
abbrev pub misplaced : Slice → Bool
misplaced s = ltb 0 (s.off % 4)

abbrev pub aligned : Vring → Slice → Slice → Vring × Result Error (Unit {0})
aligned v avail used =
    if misplaced avail
    then (v, err misaligned)
    else if misplaced used
    then (v, err misaligned)
    else (v, ok tt)

abbrev pub bind_used : Vring → Slice → Result Error Slice → Vring × Result Error (Unit {0})
bind_used v avail (err x) = (record v { used = none }, err x)
bind_used v avail (ok s) = aligned (record v { used = some s }) avail s

abbrev pub bind_avail :
    List Region → VringAddr → Vring → Result Error Slice → Vring × Result Error (Unit {0})
bind_avail rs a v (err x) = (record v { avail = none }, err x)
bind_avail rs a v (ok s) =
    bind_used (record v { avail = some s }) s (translate rs a.used (4 + v.num * 8))

abbrev pub bind_desc :
    List Region → VringAddr → Vring → Result Error Slice → Vring × Result Error (Unit {0})
bind_desc rs a v (err x) = (record v { desc = none }, err x)
bind_desc rs a v (ok s) =
    bind_avail rs a (record v { desc = some s }) (translate rs a.avail (4 + v.num * 2))

-- A table that is not found leaves nil in its place.
unfoldable pub setup : List Region → VringAddr → Vring → Vring × Result Error (Unit {0})
unfolding translate
setup rs a v =
    if v.num == 0 then (v, err no_num) else bind_desc rs a v (translate rs a.desc (v.num * 16))

-- The descriptor at `d[i:]`, with the descriptor's flags.
abbrev pub raw_of : ℕ → ℕ → ℕ → Elem → Result Error Elem
raw_of addr len flags e =
    if len == 0
    then err zero_length
    else ok (record e {
      raw = e.raw ++ record { addr = addr; length = len; write = is_write flags } ∷ [];
    })

unfoldable pub add_desc : Guest → Slice → ℕ → Elem → Result Error Elem
unfolding u16 u32 u64
add_desc g d i e = do
  addr ← u64 g d i
  len ← u32 g d (i + 8)
  flags ← u16 g d (i + 12)
  raw_of addr len flags e

-- The entries of an indirect table that are left.
unfoldable pub walk_table : Guest → Slice → ℕ → ℕ → Elem → Result Error Elem
unfolding add_desc u16
walk_table g tbl zero i e = err ran_off
walk_table g tbl (suc k) i e = add_desc g tbl (i * 16) e >>= λ e'.
    u16 g tbl (i * 16 + 12) >>= λ flags.
    let rest = walk_table g tbl k (i + 1) e' in if has_next flags then rest else ok e'

unfoldable pub desc_at : Vring → ℕ → Result Error Slice
unfolding sub
desc_at v idx =
    if leb v.num idx
    then err bad_index
    else elim v.desc [ none ↦ err panicked | some d ↦ sub d (idx * 16) (idx * 16 + 16) ]

-- An indirect descriptor is the last of its chain.
unfoldable pub visit_indirect :
    List Region → Guest → Slice → ℕ → Elem → Result Error (Elem × Option ℕ)
unfolding u32 u64 translate walk_table
visit_indirect rs g d flags e = u64 g d 0 >>= λ taddr. u32 g d 8 >>= λ tlen.
    if has_next flags
    then err indirect_next
    else if ltb 0 (tlen % 16)
    then err indirect_len
    else translate rs taddr tlen >>= λ tbl. walk_table g tbl (tlen / 16) 0 e >>= λ e'. ok (e', none)

abbrev pub follow : Elem → Bool → Result Error ℕ → Result Error (Elem × Option ℕ)
follow e false next = ok (e, none)
follow e true next = next >>= λ idx. ok (e, some idx)

unfoldable pub visit_direct : Guest → Slice → ℕ → Elem → Result Error (Elem × Option ℕ)
unfolding add_desc u16
visit_direct g d flags e = add_desc g d 0 e >>= λ e'. follow e' (has_next flags) (u16 g d 14)

-- One round of the loop: the element, and the next index unless the loop ends here.
unfoldable pub visit : List Region → Guest → Vring → ℕ → Elem → Result Error (Elem × Option ℕ)
unfolding desc_at u16 visit_indirect visit_direct
visit rs g v idx e = desc_at v idx >>= λ d. u16 g d 12 >>= λ flags.
    if is_indirect flags then visit_indirect rs g d flags e else visit_direct g d flags e

abbrev pub walked : Elem → Result Error Elem
walked e = elim e.raw [ [] ↦ err empty_chain | d ∷ ds ↦ ok e ]

abbrev pub go_on : (ℕ → Elem → Result Error Elem) → Elem × Option ℕ → Result Error Elem
go_on next (e, none) = walked e
go_on next (e, some idx) = next idx e

unfoldable pub walk : List Region → Guest → Vring → ℕ → ℕ → ℕ → Elem → Result Error Elem
unfolding visit
walk rs g v zero seen idx e = err stuck
walk rs g v (suc k) seen idx e =
    if ltb (v.num * 2) seen
    then err chain_loop
    else (visit rs g v idx e >>= go_on (λ next e'. walk rs g v k (seen + 1) next e'))

-- At most `num * 2 + 1` rounds, and one that finds the limit passed.
unfoldable pub walk_chain : List Region → Guest → Vring → ℕ → Result Error Elem
unfolding walk
walk_chain rs g v head =
    walk rs g v (v.num * 2 + 2) 0 head (record { head = head; out_sg = []; in_sg = []; raw = [] })

abbrev pub chained : Vring → Result Error Elem → Vring × Result Error (Option Elem)
chained v (err x) = (v, err x)
chained v (ok e) = (v, ok (some e))

abbrev pub take_head :
    List Region → Guest → Vring → Result Error ℕ → Vring × Result Error (Option Elem)
take_head rs g v (err x) = (v, err x)
take_head rs g v (ok head) =
    let v' = record v { last_avail = (v.last_avail + 1) % 65536 } in
    chained v' (walk_chain rs g v' head)

abbrev pub pop_from :
    List Region → Guest → Vring → Slice → Result Error ℕ → Vring × Result Error (Option Elem)
pop_from rs g v avail (err x) = (v, err x)
pop_from rs g v avail (ok idx) =
    if idx == v.last_avail % 65536
    then (v, ok none)
    else if v.num == 0
    then (v, err panicked)
    else take_head rs g v (u16 g avail (4 + v.last_avail % 65536 % v.num * 2))

-- The load of 32 bits covers the flags and, above them, the index.
abbrev pub avail_idx : Guest → Slice → Result Error ℕ
avail_idx g avail = u32 g avail 0 >>= λ word. ok (word / 65536)

unfoldable pub pop : List Region → Guest → Vring → Vring × Result Error (Option Elem)
unfolding u16 u32 walk_chain
pop rs g v = elim v.desc [
  | none ↦ (v, err unconfigured)
  | some d ↦ elim v.avail [
    | none ↦ (v, err panicked)
    | some avail ↦ pop_from rs g v avail (avail_idx g avail)
  ]
]

abbrev pub sort_in : RawDesc → Slice → Elem → Elem
sort_in d s e =
    if d.write
    then record e { in_sg = e.in_sg ++ s ∷ [] }
    else record e { out_sg = e.out_sg ++ s ∷ [] }

unfoldable pub translate_all : List Region → List RawDesc → Elem → Result Error Elem
unfolding translate
translate_all rs [] e = ok (record e { raw = [] })
translate_all rs (d ∷ ds) e =
    translate rs d.addr d.length >>= λ s. translate_all rs ds (sort_in d s e)

unfoldable pub translate_sg : List Region → Elem → Result Error Elem
unfolding translate_all
translate_sg rs e = translate_all rs e.raw e
