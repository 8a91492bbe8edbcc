-- ===== src/Network/Examples.antt =====
-- The theorems about guest addresses at 10.0.0.1/24, and tests.
use pvm.Prelude.{ℕ, ◌+◌, ◌≡◌, refl, none, some, List, [], ◌∷◌, ok, err, arith, text_comparable}
use pvm.Prelude.Dict.{get, put, del}
use pvm.Network.Ipam.{
  Ipam, ipv4, new_ipam, seek_host, reserve, allocate, allocate_guest, release, is_gateway,
  outside_subnet,
}
use pvm.Network.Addresses.{IsConsistent, IsSubnet, Call, next, pinned, free, step, run}
use pvm.Network.Guests.{run-IsConsistent, Chosen, allocate-Chosen}

-- 10.0.0.0
abbrev net : ℕ
net = 167772160

abbrev bridge : Ipam
bridge = record {
  ones = 24;
  gateway = net + 1;
  base = net;
  bcast = net + 255;
  by_task = [];
  taken = [];
}

bridge-new : new_ipam (ipv4 (net + 1) 24) ≡ ok bridge
unfolding new_ipam
bridge-new = refl

abbrev calls : List Call
calls = next "t1" ∷ pinned "t2" (some (net + 101)) ∷ next "t3" ∷ free "t1" ∷ next "t4" ∷ []

run-IsConsistent_example : IsConsistent (run bridge calls)
run-IsConsistent_example =
    run-IsConsistent (ipv4 (net + 1) 24) bridge calls bridge-new (omega arith)

test_calls : get (run bridge calls).by_task "t4" ≡ some (net + 100)
unfolding run step allocate allocate_guest release seek_host reserve get put del
test_calls = refl

test_third : get (run bridge calls).by_task "t3" ≡ some (net + 102)
unfolding run step allocate allocate_guest release seek_host reserve get put del
test_third = refl

test_pinned :
    ((allocate_guest bridge "t" (some (net + 1))).1 ≡ err is_gateway)
    × ((allocate_guest bridge "t" (some 7)).1 ≡ err outside_subnet)
unfolding allocate_guest
test_pinned = (refl, refl)

empty-t : get bridge.by_task "t1" ≡ none
unfolding get
empty-t = refl

bridge-IsSubnet : IsSubnet bridge
bridge-IsSubnet = record { low = omega arith; span = refl }

allocate-Chosen_example : Chosen bridge "t1" (allocate bridge "t1")
allocate-Chosen_example = allocate-Chosen bridge "t1" bridge-IsSubnet empty-t
