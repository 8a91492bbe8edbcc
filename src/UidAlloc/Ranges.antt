-- ===== src/UidAlloc/Ranges.antt =====
-- The ranges that the table of internal/uidalloc/uidalloc.go holds: within 32 bits, and disjoint.
use pvm.Prelude.{
  ℕ, zero, suc, ◌+◌, ◌-◌, ◌*◌, ◌%◌, ◌≤◌, ◌<◌, String, ◌≡◌, Bool, true, false, none, some, [], ◌∷◌,
  text_comparable, nat_comparable, arith, Result, ok, err, inl, inr, Bool-cases,
}
use pvm.Prelude.Dict.{Dict, get}
use pvm.UidAlloc.Table.{
  Content, absent, blank, corrupt, table, Disk, Reach, nothing, part, whole, Error, decode, write,
  write_at, store, change, opened, mutate, used, seek_base, range_size, first_base, max_base,
}

-- A predicate at the table that the file holds.
abbrev pub Holds {ℓ} : (Dict String ℕ → Type ℓ) → Content → Type ℓ
Holds P corrupt = Unit
Holds P (table d) = P d
Holds P _ = P []

abbrev pub Keeps {ℓ κ} :
    {A : Type κ} → (Dict String ℕ → Type ℓ) → Result Error (Dict String ℕ × A) → Type ℓ
Keeps P (err x) = Unit
Keeps P (ok (d, a)) = P d

module _ {ℓ} (P : Dict String ℕ → Type ℓ) (empty : P []) where
  write-Holds :
      (disk : Disk) (c : Content) (d : Dict String ℕ) → P d → Holds P c → Holds P (write disk c d).0
  unfolding write
  write-Holds disk c d p h = elim (Bool-cases disk.encode) [
    | inr no? ↦ rw (no?, write) h
    | inl yes? ↦ elim (Bool-cases disk.truncate) [
      | inr no? ↦ rw (yes?, no?, write) h
      | inl cut ↦ rw (yes?, cut, write) (reach disk.write_at)
    ]
  ]
    where
      reach : (r : Reach) → Holds P (write_at disk r d).0
      reach nothing = empty
      reach part = tt
      reach whole = elim (Bool-cases disk.sync) [ inl y ↦ rw y p | inr n ↦ rw n p ]

  store-Holds :
      {A : Type 0} (disk : Disk) (c : Content) (r : Result Error (Dict String ℕ × A))
      → Keeps P r
      → Holds P c
      → Holds P (store disk c r).0
  store-Holds disk c (err x) k h = h
  store-Holds disk c (ok (d, a)) k h = write-Holds disk c d k h

  opened-Holds : (c : Content) → Holds P c → Holds P (opened c)
  opened-Holds absent h = h
  opened-Holds blank h = h
  opened-Holds corrupt h = h
  opened-Holds (table d) h = h

  change-Holds :
      {A : Type 0} (disk : Disk) (stat? : Bool) (c : Content)
      (f : Dict String ℕ → Result Error (Dict String ℕ × A))
      → ((d : Dict String ℕ) → P d → Keeps P (f d))
      → Holds P c
      → Holds P (change disk c f (decode stat? c)).0
  unfolding decode
  change-Holds disk false c f k h = h
  change-Holds disk true absent f k h = store-Holds disk absent (f []) (k [] empty) h
  change-Holds disk true blank f k h = store-Holds disk blank (f []) (k [] empty) h
  change-Holds disk true corrupt f k h = h
  change-Holds disk true (table d) f k h = store-Holds disk (table d) (f d) (k d h) h

  -- What a change of the table preserves, the file preserves, however far the call comes.
  pub mutate-Holds :
      {A : Type 0} (disk : Disk) (c : Content)
      (f : Dict String ℕ → Result Error (Dict String ℕ × A))
      → ((d : Dict String ℕ) → P d → Keeps P (f d))
      → Holds P c
      → Holds P (mutate disk c f).0
  unfolding mutate
  mutate-Holds disk c f k h = elim (Bool-cases disk.state_dir) [
    | inr no? ↦ rw (no?, mutate) h
    | inl a ↦ elim (Bool-cases disk.open_table) [
      | inr no? ↦ rw (a, no?, mutate) h
      | inl b ↦ elim (Bool-cases disk.lock_table) [
        | inr no? ↦ rw (a, b, no?, mutate) (opened-Holds c h)
        | inl l ↦
            rw (a, b, l, mutate)
              (change-Holds (record disk { state_dir = true; open_table = true; lock_table = true })
                disk.stat_table (opened c) f k (opened-Holds c h))
      ]
    ]
  ]

-- Ranges on the grid from 100000 in steps of 65536 that end below 2 ^ 32, one for each container.
pub record IsDisjoint (d : Dict String ℕ) : Type 0 where
  pub grid :
      (id : String) (b : ℕ)
      → get d id ≡ some b
      → (first_base ≤ b) × (b ≤ max_base) × ((b - first_base) % range_size ≡ 0)
  pub single : (i j : String) (b : ℕ) → get d i ≡ some b → get d j ≡ some b → i ≡ j

pub get-used : (d : Dict String ℕ) (id : String) (b : ℕ) → get d id ≡ some b → used d b ≡ true
unfolding get used
get-used [] id b h = cc
get-used ((j, a) ∷ d) id b h = ground (arith, h, get-used d id b)

-- The loop finds the lowest base of the grid that no container has.
pub seek_base-some :
    (d : Dict String ℕ) (n from b : ℕ)
    → seek_base d n from ≡ some b
    → (from ≤ b)
      × (b + range_size ≤ from + n * range_size)
      × ((b - from) % range_size ≡ 0)
      × (used d b ≡ false)
unfolding seek_base
seek_base-some d zero from b q = ground (arith, q)
seek_base-some d (suc n) from b q = ground (arith, q, seek_base-some d n (from + range_size) b)

pub seek_base-lowest :
    (d : Dict String ℕ) (n from b k : ℕ)
    → seek_base d n from ≡ some b
    → from + k * range_size < b
    → used d (from + k * range_size) ≡ true
unfolding seek_base
seek_base-lowest d zero from b k q l = ground (arith, q)
seek_base-lowest d (suc n) from b zero q l = ground (arith, q)
seek_base-lowest d (suc n) from b (suc k) q l =
    ground (arith, q, l, seek_base-lowest d n (from + range_size) b k)

pub seek_base-none :
    (d : Dict String ℕ) (n from k : ℕ)
    → seek_base d n from ≡ none
    → k < n
    → used d (from + k * range_size) ≡ true
unfolding seek_base
seek_base-none d zero from k q l = ground (arith, l)
seek_base-none d (suc n) from zero q l = ground (arith, q)
seek_base-none d (suc n) from (suc k) q l =
    ground (arith, q, l, seek_base-none d n (from + range_size) k)
