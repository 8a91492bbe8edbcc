-- ===== src/UidAlloc/Examples.antt =====
-- The theorems about the uid table at two containers, and tests.
use pvm.Prelude.{
  ℕ, ◌+◌, ◌^◌, ◌≤◌, String, ◌≡◌, ◌≢◌, ◌⊎◌, refl, true, false, none, some, List, [], ◌∷◌, ok, err,
  eq_iff, text_comparable,
}
use pvm.Prelude.Dict.{Dict, get, put, del}
use pvm.UidAlloc.Table.{
  absent, table, mutate, decode, write, assign, lowest_free, seek_base, used, allocate, release,
  lookup, valid_id, part, corrupt_table,
}
use pvm.UidAlloc.Disjoint.{Call, take_range, free_range, step, run, run_disjoint}
use pvm.UidAlloc.Lost.{working, cut_off, allocate-cut_off}

abbrev calls : List Call
calls =
    take_range working "a"
    ∷ take_range working "b"
    ∷ free_range working "a"
    ∷ take_range working "c"
    ∷ []

abbrev two : Dict String ℕ
two = ("b", 165536) ∷ ("c", 100000) ∷ []

calls-two : run absent calls ≡ table two
unfolding run step allocate release valid_id mutate decode write assign lowest_free seek_base used
    get put del
calls-two = refl

two-b : get two "b" ≡ some 165536
unfolding get
two-b = refl

two-c : get two "c" ≡ some 100000
unfolding get
two-c = refl

abbrev b : String
b = "b"

abbrev c : String
c = "c"

unlike : b ≢ c
unlike q = cc ((eq_iff "b" "c").1 q)

run_disjoint_example :
    (100000 ≤ 165536)
    × (165536 + 65536 ≤ 2 ^ 32)
    × ((165536 + 65536 ≤ 100000) ⊎ (100000 + 65536 ≤ 165536))
run_disjoint_example = run_disjoint calls two b c 165536 100000 calls-two two-b two-c unlike

d-valid : valid_id "d" ≡ true
unfolding valid_id
d-valid = refl

-- "c" has the range 100000, and "d" gets it too.
allocate-cut_off_example : (allocate working (release cut_off (table two) "b").0 "d").1 ≡ ok 100000
allocate-cut_off_example = allocate-cut_off two "b" "d" d-valid

test_torn :
    (allocate working (release (record working { write_at = part }) (table two) "b").0 "d").1
    ≡ err corrupt_table
unfolding allocate release valid_id mutate decode write
test_torn = refl

test_ids : (valid_id "a_b-9" ≡ true) × (valid_id "../x" ≡ false) × (valid_id "" ≡ false)
unfolding valid_id
test_ids = (refl, refl, refl)

test_lookup :
    (lookup working absent "a" ≡ ok none) × (lookup working (table two) "c" ≡ ok (some 100000))
unfolding lookup valid_id decode get
test_lookup = (refl, refl)
