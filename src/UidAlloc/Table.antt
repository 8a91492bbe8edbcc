-- ===== src/UidAlloc/Table.antt =====
-- internal/uidalloc/uidalloc.go: `Allocate`, `Lookup`, `Release`, `Prune` and the file that holds the
-- table. The mutex and the flock make each call one step.
use pvm.Prelude.{
  codes, ℕ, zero, suc, ◌+◌, ◌-◌, ◌^◌, String, Bool, true, false, ◌&&◌, ◌||◌, not, Option, none,
  some, List, [], ◌∷◌, ◌==◌, leb, text_comparable, nat_comparable, if◌then◌else◌, Result, ok, err,
}
use pvm.Prelude.Dict.{Dict, get, put, del}

abbrev pub range_size : ℕ
range_size = 65536

abbrev pub first_base : ℕ
first_base = 100000

abbrev pub max_base : ℕ
max_base = 2 ^ 32 - range_size

abbrev id_char : ℕ → Bool
id_char c =
    leb b'a' c && leb c b'z'
    || leb b'A' c && leb c b'Z'
    || leb b'0' c && leb c b'9'
    || c == b'_'
    || c == b'-'

abbrev id_chars : List ℕ → Bool
id_chars [] = true
id_chars (c ∷ cs) = let rest = id_chars cs in id_char c && rest

-- `^[a-zA-Z0-9_-]+$`
unfoldable pub valid_id : String → Bool
valid_id id = not (id == "") && id_chars (codes id)

-- What the file holds: `absent` before the first call, `blank` when its size is 0.
pub data Content : Type 0 where
  absent blank corrupt : Content
  table : Dict String ℕ → Content

-- How far `WriteAt` came.
pub data Reach : Type 0 where
  nothing part whole : Reach

pub record Disk : Type 0 where
  pub state_dir : Bool
  pub open_table : Bool
  pub lock_table : Bool
  pub stat_table : Bool
  pub encode : Bool
  pub truncate : Bool
  pub write_at : Reach
  pub sync : Bool

pub data Error : Type 0 where
  invalid_id exhausted create_dir opening locking stating corrupt_table : Error
  encoding truncating writing syncing : Error

unfoldable pub decode : Bool → Content → Result Error (Dict String ℕ)
decode false c = err stating
decode true absent = ok []
decode true blank = ok []
decode true corrupt = err corrupt_table
decode true (table d) = ok d

abbrev pub sync_table : Disk → Dict String ℕ → Content × Result Error (Unit {0})
sync_table disk d = if disk.sync then (table d, ok tt) else (table d, err syncing)

abbrev pub write_at : Disk → Reach → Dict String ℕ → Content × Result Error (Unit {0})
write_at disk nothing d = (blank, err writing)
write_at disk part d = (corrupt, err writing)
write_at disk whole d = sync_table disk d

unfoldable pub write : Disk → Content → Dict String ℕ → Content × Result Error (Unit {0})
write disk c d =
    if not disk.encode
    then (c, err encoding)
    else if not disk.truncate
    then (c, err truncating)
    else write_at disk disk.write_at d

abbrev answer {ℓ} : {A : Type ℓ} → Result Error (Unit {0}) → A → Result Error A
answer (ok _) a = ok a
answer (err x) a = err x

abbrev pub store {ℓ} :
    {A : Type ℓ} → Disk → Content → Result Error (Dict String ℕ × A) → Content × Result Error A
store disk c (err x) = (c, err x)
store disk c (ok (d, a)) = let (c', r) = write disk c d in (c', answer r a)

abbrev pub change {ℓ} :
    {A : Type ℓ}
    → Disk
    → Content
    → (Dict String ℕ → Result Error (Dict String ℕ × A))
    → Result Error (Dict String ℕ)
    → Content × Result Error A
change disk c f (err x) = (c, err x)
change disk c f (ok d) = store disk c (f d)

-- Opening the file makes it.
abbrev pub opened : Content → Content
opened absent = blank
opened c = c

unfoldable pub mutate {ℓ} :
    {A : Type ℓ}
    → Disk
    → Content
    → (Dict String ℕ → Result Error (Dict String ℕ × A))
    → Content × Result Error A
unfolding decode write
mutate disk c f =
    if not disk.state_dir
    then (c, err create_dir)
    else if not disk.open_table
    then (c, err opening)
    else if not disk.lock_table
    then (opened c, err locking)
    else change disk (opened c) f (decode disk.stat_table (opened c))

unfoldable pub used : Dict String ℕ → ℕ → Bool
used [] b = false
used ((id, a) ∷ d) b = a == b || used d b

-- The loop over `b`, for the number of ranges that are left up to `max_base`.
unfoldable pub seek_base : Dict String ℕ → ℕ → ℕ → Option ℕ
unfolding used
seek_base d zero b = none
seek_base d (suc n) b =
    let rest = seek_base d n (b + range_size) in if used d b then rest else some b

-- `b` starts at `first_base` and stays at most `max_base`.
abbrev pub slots : ℕ
slots = 65534

unfoldable pub lowest_free : Dict String ℕ → Option ℕ
unfolding seek_base
lowest_free d = seek_base d slots first_base

unfoldable pub assign : String → Dict String ℕ → Result Error (Dict String ℕ × ℕ)
unfolding lowest_free
assign id d = elim (get d id) [
  | some b ↦ ok (d, b)
  | none ↦ elim (lowest_free d) [ some b ↦ ok (put d id b, b) | none ↦ err exhausted ]
]

unfoldable pub allocate : Disk → Content → String → Content × Result Error ℕ
unfolding mutate valid_id
allocate disk c id = if not (valid_id id) then (c, err invalid_id) else mutate disk c (assign id)

abbrev pub drop_id : String → Dict String ℕ → Result Error (Dict String ℕ × Unit {0})
drop_id id d = ok (del d id, tt)

unfoldable pub release : Disk → Content → String → Content × Result Error (Unit {0})
release disk c id = mutate disk c (drop_id id)

unfoldable pub retain : (String → Bool) → Dict String ℕ → Dict String ℕ × ℕ
retain keep [] = ([], 0)
retain keep ((id, b) ∷ d) =
    let (rest, n) = retain keep d in if keep id then ((id, b) ∷ rest, n) else (rest, n + 1)

abbrev pub retain_ok : (String → Bool) → Dict String ℕ → Result Error (Dict String ℕ × ℕ)
retain_ok keep d = ok (retain keep d)

unfoldable pub prune : Disk → Content → (String → Bool) → Content × Result Error ℕ
unfolding retain
prune disk c keep = mutate disk c (retain_ok keep)

abbrev found : String → Result Error (Dict String ℕ) → Result Error (Option ℕ)
found id (ok d) = ok (get d id)
found id (err x) = err x

-- `Lookup` and `readLocked`: a table that does not exist is empty.
unfoldable pub lookup : Disk → Content → String → Result Error (Option ℕ)
unfolding decode
lookup disk c id = if not (valid_id id) then err invalid_id else read c
  where
    read : Content → Result Error (Option ℕ)
    read absent = ok none
    read c =
        if not disk.open_table
        then err opening
        else if not disk.lock_table
        then err locking
        else found id (decode disk.stat_table c)
