-- ===== src/Pool/Memory.antt =====
-- internal/pool/manager.go: `parseMemMB` on the bytes of a text, and `memExceeded` on 64-bit words.
use pvm.Prelude.{
  codes, ℕ, ◌+◌, ◌-◌, ◌*◌, ◌/◌, ◌%◌, ◌^◌, ◌≤◌, ◌<◌, String, ◌≡◌, Bool, ◌&&◌, ◌||◌, Option, none,
  some, List, [], ◌∷◌, arith, ◌==◌, nat_comparable, ltb, leb, if◌then◌else◌, Result, ok, err, ◌>>=◌,
}

abbrev pub max_int64 : ℕ
max_int64 = 2 ^ 63 - 1

pub data MemoryError : Type 0 where
  empty invalid overflow unsupported_unit exceeds_platform : MemoryError

unfoldable pub is_digit : ℕ → Bool
is_digit c = leb b'0' c && leb c b'9'

-- The loop over the leading digits: their value, how many there are, and what follows.
unfoldable pub scan_digits : ℕ → ℕ → List ℕ → ℕ × ℕ × List ℕ
unfolding is_digit
scan_digits v n [] = (v, n, [])
scan_digits v n (c ∷ cs) =
    let rest = scan_digits (v * 10 + (c - b'0')) (n + 1) cs in
    if is_digit c then rest else (v, n, c ∷ cs)

pub data MemUnit : Type 0 where
  kib mib gib : MemUnit

-- "K", "KB", "k", "kb" and so on; `none` for any other text.
unfoldable pub unit_of : List ℕ → Option MemUnit
unit_of (c ∷ []) =
    if c == b'K' || c == b'k'
    then some kib
    else if c == b'M' || c == b'm'
    then some mib
    else if c == b'G' || c == b'g'
    then some gib
    else none
unit_of (c ∷ d ∷ []) =
    if c == b'K' && d == b'B' || c == b'k' && d == b'b'
    then some kib
    else if c == b'M' && d == b'B' || c == b'm' && d == b'b'
    then some mib
    else if c == b'G' && d == b'B' || c == b'g' && d == b'b'
    then some gib
    else none
unit_of _ = none

unfoldable pub to_mb : ℕ → Option MemUnit → Result MemoryError ℕ
to_mb v none = err unsupported_unit
to_mb v (some kib) = ok (if v % 1024 == 0 then v / 1024 else v / 1024 + 1)
to_mb v (some mib) = ok v
to_mb v (some gib) = if ltb (max_int64 / 1024) v then err overflow else ok (v * 1024)

-- On a 64-bit platform `math.MaxInt` is `math.MaxInt64`.
unfoldable pub parse_bytes : List ℕ → Result MemoryError ℕ
unfolding scan_digits unit_of to_mb
parse_bytes [] = err empty
parse_bytes (c ∷ cs) =
    let (v, n, suffix) = scan_digits 0 0 (c ∷ cs) in
    if n == 0 then err invalid else if ltb max_int64 v then err invalid else (do
      mb ← to_mb v (unit_of suffix)
      if ltb max_int64 mb then err exceeds_platform else ok mb)

unfoldable pub parse_mem_mb : String → Result MemoryError ℕ
unfolding parse_bytes
parse_mem_mb s = parse_bytes (codes s)

-- KiB in one unit.
abbrev pub unit_kib : MemUnit → ℕ
unit_kib kib = 1
unit_kib mib = 1024
unit_kib gib = 1024 * 1024

-- The charge covers what was asked for, by less than one MB too much, and is never cut off.
pub to_mb_covers :
    (v mb : ℕ) (u : MemUnit)
    → to_mb v (some u) ≡ ok mb
    → (v * unit_kib u ≤ mb * 1024) × (mb * 1024 < v * unit_kib u + 1024)
unfolding to_mb
to_mb_covers v mb kib h = ground arith
to_mb_covers v mb mib h = ground arith
to_mb_covers v mb gib h = ground arith

-- int64 as its bit pattern: `a - b` wraps, and `<` compares the signed values.
abbrev sub64 : ℕ → ℕ → ℕ
sub64 a b = (a + 2 ^ 64 - b) % 2 ^ 64

abbrev lt64 : ℕ → ℕ → Bool
lt64 a b = ltb ((a + 2 ^ 63) % 2 ^ 64) ((b + 2 ^ 63) % 2 ^ 64)

unfoldable pub mem_exceeded : ℕ → ℕ → ℕ → Bool
mem_exceeded limit used want = lt64 (sub64 limit used) want

-- On values that an int64 holds the check is that of the exact sum: nothing wraps.
pub mem_exceeded_exact :
    (limit used want : ℕ)
    → limit ≤ max_int64
    → used ≤ max_int64
    → want ≤ max_int64
    → mem_exceeded limit used want ≡ ltb limit (used + want)
unfolding mem_exceeded
mem_exceeded_exact limit used want l u w = ground arith

-- The charge of a template is a number of the platform.
pub parse_bytes-le : (cs : List ℕ) (mb : ℕ) → parse_bytes cs ≡ ok mb → mb ≤ max_int64
unfolding parse_bytes to_mb
parse_bytes-le [] mb h = ground arith
parse_bytes-le (c ∷ cs) mb h = ground (arith, h)
