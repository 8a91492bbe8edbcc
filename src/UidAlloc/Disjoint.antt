-- ===== src/UidAlloc/Disjoint.antt =====
-- The ranges in the table of internal/uidalloc/uidalloc.go on the disk, over histories of calls, and
-- which range `Allocate` gives.
use pvm.Prelude.{
  ℕ, ◌+◌, ◌-◌, ◌*◌, ◌%◌, ◌^◌, ◌≤◌, ◌<◌, String, ◌≡◌, ◌≢◌, refl, sym, ◌∙◌, subst, Bool, true, false,
  none, some, List, [], ◌∷◌, text_comparable, nat_comparable, eq_iff, arith, if◌then◌else◌, Result,
  ok, err, inl, inr, Bool-cases, Option-cases, ◌⊎◌,
}
use pvm.Prelude.Dict.{Dict, get, put, get-del, get-put_self, get-put_cases, get-put_ne}
use pvm.UidAlloc.Table.{
  Content, absent, table, Disk, Error, exhausted, used, lowest_free, slots, assign, allocate,
  release, retain, prune, drop_id, retain_ok, valid_id, range_size, first_base, max_base,
}
use pvm.UidAlloc.Ranges.{
  Holds, Keeps, mutate-Holds, IsDisjoint, get-used, seek_base-some, seek_base-lowest,
  seek_base-none,
}

empty-IsDisjoint : IsDisjoint []
unfolding get
empty-IsDisjoint = record { grid = λ id b q. cc; single = λ i j b p q. cc }

lowest_free-grid :
    (d : Dict String ℕ) (b : ℕ)
    → lowest_free d ≡ some b
    → (first_base ≤ b) × (b ≤ max_base) × ((b - first_base) % range_size ≡ 0) × (used d b ≡ false)
unfolding lowest_free
lowest_free-grid d b q =
    let (l, r, g, u) = seek_base-some d slots first_base b q in (l, omega arith, g, u)

put-IsDisjoint :
    (d : Dict String ℕ) (id : String) (b : ℕ)
    → (first_base ≤ b) × (b ≤ max_base) × ((b - first_base) % range_size ≡ 0)
    → used d b ≡ false
    → IsDisjoint d
    → IsDisjoint (put d id b)
put-IsDisjoint d id b g u k = record {
  grid = λ i c q. elim (get-put_cases d id i b c q) [
    | inl (p, r) ↦ rw (← r) g
    | inr was ↦ k.grid i c was
  ];
  single = λ i j c q r. elim (get-put_cases d id i b c q) [
    | inl (p, x) ↦ elim (get-put_cases d id j b c r) [
      | inl (o, y) ↦ sym p ∙ o
      | inr was ↦ cc (get-used d j c was, x, u)
    ]
    | inr was ↦ elim (get-put_cases d id j b c r) [
      | inl (o, y) ↦ cc (get-used d i c was, y, u)
      | inr had ↦ k.single i j c was had
    ]
  ];
}

assign-Keeps : (id : String) (d : Dict String ℕ) → IsDisjoint d → Keeps IsDisjoint (assign id d)
unfolding assign
assign-Keeps id d k = elim (Option-cases (get d id)) [
  | inr (b, had) ↦ rw (had, assign) k
  | inl none? ↦ elim (Option-cases (lowest_free d)) [
    | inl full ↦ rw (none?, full, assign) tt
    | inr (b, found) ↦
        let (l, r, g, u) = lowest_free-grid d b found in
        rw (none?, found, assign) (put-IsDisjoint d id b (l, r, g) u k)
  ]
]

drop_id-Keeps : (id : String) (d : Dict String ℕ) → IsDisjoint d → Keeps IsDisjoint (drop_id id d)
drop_id-Keeps id d k = record {
  grid = λ i b. ground (arith, get-del d id i, k.grid i b);
  single = λ i j b. ground (arith, get-del d id i, get-del d id j, k.single i j b);
}

get-retain :
    (keep : String → Bool) (d : Dict String ℕ) (id : String)
    → get (retain keep d).0 id ≡ (if keep id then get d id else none)
unfolding get retain
get-retain keep [] id = ground arith
get-retain keep ((j, b) ∷ d) id = ground (arith, get-retain keep d id, eq_iff j id)

retain_ok-Keeps :
    (keep : String → Bool) (d : Dict String ℕ) → IsDisjoint d → Keeps IsDisjoint (retain_ok keep d)
retain_ok-Keeps keep d k = record {
  grid = λ i b. ground (arith, get-retain keep d i, k.grid i b);
  single = λ i j b. ground (arith, get-retain keep d i, get-retain keep d j, k.single i j b);
}

-- A call, and what the file system does during it.
pub data Call : Type 0 where
  take_range : Disk → String → Call
  free_range : Disk → String → Call
  reclaim : Disk → (String → Bool) → Call

unfoldable pub step : Content → Call → Content
step c (take_range disk id) = (allocate disk c id).0
step c (free_range disk id) = (release disk c id).0
step c (reclaim disk keep) = (prune disk c keep).0

unfoldable pub run : Content → List Call → Content
run c [] = c
run c (x ∷ xs) = run (step c x) xs

step-Holds : (c : Content) (x : Call) → Holds IsDisjoint c → Holds IsDisjoint (step c x)
unfolding step allocate release prune
step-Holds c (take_range disk id) h = elim (Bool-cases (valid_id id)) [
  | inr bad ↦ rw (bad, step, allocate) h
  | inl fine ↦
      rw (fine, step, allocate)
        (mutate-Holds IsDisjoint empty-IsDisjoint disk c (assign id) (assign-Keeps id) h)
]
step-Holds c (free_range disk id) h =
    mutate-Holds IsDisjoint empty-IsDisjoint disk c (drop_id id) (drop_id-Keeps id) h
step-Holds c (reclaim disk keep) h =
    mutate-Holds IsDisjoint empty-IsDisjoint disk c (retain_ok keep) (retain_ok-Keeps keep) h

run-Holds : (c : Content) (xs : List Call) → Holds IsDisjoint c → Holds IsDisjoint (run c xs)
unfolding run
run-Holds c [] h = h
run-Holds c (x ∷ xs) h = run-Holds (step c x) xs (step-Holds c x h)

-- In the table that is on the disk after any history of `Allocate`, `Release` and `Prune` from no table,
-- with any failures of the file system, the ranges of 65536 uids of two different containers lie above
-- 99999, do not reach beyond 2 ^ 32, and do not overlap. A range that a failed write lost from the table, in
-- use or not, is not spoken of.
pub run_disjoint :
    (calls : List Call) (d : Dict String ℕ) (i j : String) (a b : ℕ)
    → run absent calls ≡ table d
    → get d i ≡ some a
    → get d j ≡ some b
    → i ≢ j
    → (100000 ≤ a) × (a + 65536 ≤ 2 ^ 32) × ((a + 65536 ≤ b) ⊎ (b + 65536 ≤ a))
run_disjoint calls d i j a b h p q n =
    let k = subst (Holds IsDisjoint) h (run-Holds absent calls empty-IsDisjoint) in
    let (la, ra, ga) = k.grid i a p in
    let (lb, rb, gb) = k.grid j b q in
    (la, omega arith, ground (arith, la, ra, ga, lb, rb, gb, k.single i j a p, q, n))

-- Of the table, what a call of `Allocate` for a container does to it.
abbrev pub Assigned : String → Dict String ℕ → Result Error (Dict String ℕ × ℕ) → Type 0
Assigned id d (ok (d', b)) =
    (get d' id ≡ some b)
    × ((j : String) → j ≢ id → get d' j ≡ get d j)
    × ((get d id ≡ some b)
        ⊎ ((used d b ≡ false)
            × ((k : ℕ)
                → first_base + k * range_size < b
                → used d (first_base + k * range_size) ≡ true)))
Assigned id d (err x) =
    (x ≡ exhausted) × ((k : ℕ) → k < slots → used d (first_base + k * range_size) ≡ true)

-- `Allocate` on a table gives a container the range it has, or else the lowest one that no container
-- has, and changes no other container's; it fails only when all 65534 ranges are in use.
pub assign-Assigned : (id : String) (d : Dict String ℕ) → Assigned id d (assign id d)
unfolding assign lowest_free
assign-Assigned id d = elim (Option-cases (get d id)) [
  | inr (b, had) ↦ rw (had, assign) (had, λ j n. refl, inl had)
  | inl none? ↦ elim (Option-cases (lowest_free d)) [
    | inl full ↦ rw (none?, full, assign) (refl, λ k l. seek_base-none d slots first_base k full l)
    | inr (b, found) ↦
        rw (none?, found, assign)
          (
            get-put_self d id b,
            λ j n. get-put_ne d id j b (λ q. n (sym q)),
            inr (
              (lowest_free-grid d b found).3,
              λ k l. seek_base-lowest d slots first_base b k found l,
            ),
          )
  ]
]
