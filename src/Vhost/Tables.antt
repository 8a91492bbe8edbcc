-- ===== src/Vhost/Tables.antt =====
-- internal/vhost/vu/mem.go and vring.go: what the control messages leave, and the slices of a request.
use pvm.Prelude.{
  ℕ, zero, suc, ◌+◌, ◌-◌, ◌*◌, ◌≤◌, ◌<◌, ◌≡◌, refl, Bool, some, List, [], ◌∷◌, ◌++◌, ◌==◌,
  nat_comparable, ltb, arith, Result, ok, err, inl, inr, Bool-cases, All, length,
}
use pvm.Vhost.Memory.{
  Error, Slice, Region, Bytes, Table, translate, max64, le32, le64, region_of, map_regions,
  set_mem_table, close_table, close_fds,
}
use pvm.Vhost.Ring.{
  RawDesc, Elem, Vring, VringAddr, sort_in, translate_all, translate_sg, setup, bind_desc,
  bind_avail, bind_used, misplaced, aligned,
}
use pvm.Vhost.Mapped.{IsRegion, InTable, Translated, translate-Translated}
use pvm.Vhost.Request.{Gives, bind-Gives, IsRaw, IsRequest, IsReady, All-snoc, le64-max}

-- A buffer that the device may use: inside the memory table, and not empty.
abbrev pub IsBuffer : List Region → Slice → Type 0
IsBuffer rs s = InTable rs s × (0 < s.len)

abbrev pub IsMapped : List Region → Elem → Type 0
IsMapped rs e = All (IsBuffer rs) e.out_sg × All (IsBuffer rs) e.in_sg

Translated-Buffer :
    (rs : List Region) (size : ℕ) (r : Result Error Slice)
    → 0 < size
    → Translated rs size r
    → Gives (IsBuffer rs) r
Translated-Buffer rs size (ok s) p h = (h.0, ground (arith, h.1))
Translated-Buffer rs size (err x) p h = ground arith

sort_in-IsMapped :
    (rs : List Region) (d : RawDesc) (s : Slice) (e : Elem)
    → IsBuffer rs s
    → IsMapped rs e
    → IsMapped rs (sort_in d s e)
sort_in-IsMapped rs d s e b h = elim (Bool-cases d.write) [
  | inl write ↦ rw write (h.0, All-snoc (IsBuffer rs) e.in_sg s h.1 b)
  | inr read ↦ rw read (All-snoc (IsBuffer rs) e.out_sg s h.0 b, h.1)
]

translate_all-Gives :
    (rs : List Region) (ds : List RawDesc) (e : Elem)
    → All IsRegion rs
    → All IsRaw ds
    → IsMapped rs e
    → Gives (IsMapped rs) (translate_all rs ds e)
unfolding translate_all
translate_all-Gives rs [] e t r h = h
translate_all-Gives rs (d ∷ ds) e t r h =
    bind-Gives (IsBuffer rs) (IsMapped rs) (translate rs d.addr d.length) _
      (Translated-Buffer rs d.length (translate rs d.addr d.length) r.0.1
        (translate-Translated rs d.addr d.length t r.0.0))
      (λ s b. translate_all-Gives rs ds (sort_in d s e) t r.1 (sort_in-IsMapped rs d s e b h))

pub translate_sg-Gives :
    (rs : List Region) (e : Elem)
    → All IsRegion rs
    → IsRequest e
    → Gives (IsMapped rs) (translate_sg rs e)
unfolding translate_sg
translate_sg-Gives rs e t h = translate_all-Gives rs e.raw e t h.0 (rw (h.1, h.2) (tt, tt))

-- A binding of the tables that reports success.
abbrev pub Bound : Vring → Result Error (Unit {0}) → Type 0
Bound v (ok _) = IsReady v
Bound v (err x) = Unit

aligned-Bound :
    (v : Vring) (avail used : Slice)
    → IsReady v
    → Bound (aligned v avail used).0 (aligned v avail used).1
aligned-Bound v avail used k = elim (Bool-cases (misplaced avail)) [
  | inl odd ↦ rw odd tt
  | inr even ↦ elim (Bool-cases (misplaced used)) [
    | inl odd ↦ rw (even, odd) tt
    | inr both ↦ rw (even, both) k
  ]
]

bind_used-Bound :
    (v : Vring) (avail : Slice) (r : Result Error Slice)
    → ((s : Slice) → IsReady (record v { used = some s }))
    → Bound (bind_used v avail r).0 (bind_used v avail r).1
bind_used-Bound v avail (err x) k = tt
bind_used-Bound v avail (ok s) k = aligned-Bound (record v { used = some s }) avail s (k s)

bind_avail-Bound :
    (rs : List Region) (a : VringAddr) (v : Vring) (d : Slice) (r : Result Error Slice)
    → 0 < v.num
    → v.desc ≡ some d
    → (d.len ≡ v.num * 16) × (d.len ≤ d.cap)
    → Translated rs (4 + v.num * 2) r
    → Bound (bind_avail rs a v r).0 (bind_avail rs a v r).1
bind_avail-Bound rs a v d (err x) n q l h = tt
bind_avail-Bound rs a v d (ok s) n q l h =
    bind_used-Bound (record v { avail = some s }) s (translate rs a.used (4 + v.num * 8))
      (λ u. record {
        some_num = n;
        desc = d;
        is_desc = q;
        desc_len = l;
        avail = s;
        is_avail = refl;
        avail_len = h.1;
      })

bind_desc-Bound :
    (rs : List Region) (a : VringAddr) (v : Vring) (r : Result Error Slice)
    → All IsRegion rs
    → a.avail ≤ max64
    → 0 < v.num
    → Translated rs (v.num * 16) r
    → Bound (bind_desc rs a v r).0 (bind_desc rs a v r).1
bind_desc-Bound rs a v (err x) t m n h = tt
bind_desc-Bound rs a v (ok s) t m n h =
    bind_avail-Bound rs a (record v { desc = some s }) s (translate rs a.avail (4 + v.num * 2)) n
      refl (h.1, h.2) (translate-Translated rs a.avail (4 + v.num * 2) t m)

pub setup-Bound :
    (rs : List Region) (a : VringAddr) (v : Vring)
    → All IsRegion rs
    → (a.desc ≤ max64) × (a.avail ≤ max64)
    → Bound (setup rs a v).0 (setup rs a v).1
unfolding setup
setup-Bound rs a v t m = elim (Bool-cases (v.num == 0)) [
  | inl zero? ↦ rw (zero?, setup) tt
  | inr some? ↦
      rw (some?, setup)
        (bind_desc-Bound rs a v (translate rs a.desc (v.num * 16)) t m.1 (ground (arith, some?))
          (translate-Translated rs a.desc (v.num * 16) t m.0))
]

-- Regions that are mapped do not wrap around.
map_regions-IsRegion :
    (mmap : ℕ → ℕ → ℕ → Bool) (p : Bytes) (k i : ℕ) (fds : List ℕ) (t : Table)
    → All IsRegion t.regions
    → All IsRegion (map_regions mmap p k i fds t).0.regions
unfolding map_regions close_fds close_table
map_regions-IsRegion mmap p zero i fds t h = h
map_regions-IsRegion mmap p (suc k) i [] t h = h
map_regions-IsRegion mmap p (suc k) i (fd ∷ fds) t h =
    elim (Bool-cases (ltb (max64 - (region_of p i fd).gpa) (region_of p i fd).size)) [
      | inl over ↦ rw (over, map_regions) tt
      | inr fits ↦
          elim (Bool-cases (mmap fd (le64 p.at (8 + i * 32 + 24)) (region_of p i fd).size)) [
            | inr refused ↦ rw (fits, refused, map_regions) tt
            | inl taken ↦
                rw (fits, taken, map_regions)
                  (map_regions-IsRegion mmap p k (i + 1) fds
                    (record t { regions = t.regions ++ region_of p i fd ∷ [] })
                    (All-snoc IsRegion t.regions (region_of p i fd) h
                      (ground (arith, fits, le64-max p.at (8 + i * 32)), refl)))
          ]
    ]

pub set_mem_table-IsRegion :
    (mmap : ℕ → ℕ → ℕ → Bool) (p : Bytes) (fds : List ℕ) (t : Table)
    → All IsRegion t.regions
    → All IsRegion (set_mem_table mmap p fds t).0.regions
unfolding set_mem_table close_fds close_table
set_mem_table-IsRegion mmap p fds t h = elim (Bool-cases (ltb p.len 8)) [
  | inl short ↦ rw (short, set_mem_table) h
  | inr header ↦ elim (Bool-cases (ltb (length fds) (le32 p.at 0))) [
    | inl few ↦ rw (header, few, set_mem_table) h
    | inr enough ↦ elim (Bool-cases (ltb p.len (8 + le32 p.at 0 * 32))) [
      | inl small ↦ rw (header, enough, small, set_mem_table) h
      | inr long ↦
          rw (header, enough, long, set_mem_table)
            (map_regions-IsRegion mmap p (le32 p.at 0) 0 fds (close_table t) tt)
    ]
  ]
]
