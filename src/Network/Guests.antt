-- ===== src/Network/Guests.antt =====
-- The allocator of internal/network/ipam.go over a history of calls, and the choice that `Allocate`
-- makes.
use pvm.Prelude.{
  ℕ, ◌+◌, ◌-◌, ◌^◌, ◌≤◌, ◌<◌, String, ◌≡◌, refl, subst, true, ◌||◌, none, some, List, [], ◌∷◌, ltb,
  text_comparable, nat_comparable, arith, Result, ok, err, inl, inr, Bool-cases, Option-cases, ◌⊎◌,
}
use pvm.Prelude.Dict.{get, get-put_self}
use pvm.Network.Ipam.{
  Ipam, Cidr, malformed, ipv6, ipv4, Error, pool_exhausted, new_ipam, is_taken, seek_host,
  first_host, reserve, allocate,
}
use pvm.Network.Addresses.{
  IsHost, IsConsistent, IsSubnet, Call, step, run, step-IsConsistent, step-subnet, seek_host-free,
  seek_host-lowest, seek_host-none,
}

step-IsSubnet : (a : Ipam) (c : Call) → IsSubnet a → IsSubnet (step a c)
step-IsSubnet a c s =
    let (base, bcast, ones) = step-subnet a c in
    record { low = rw base s.low; span = rw (bcast, base, ones) s.span }

run_lem : (a : Ipam) (cs : List Call) → IsSubnet a → IsConsistent a → IsConsistent (run a cs)
unfolding run
run_lem a [] s c = c
run_lem a (x ∷ cs) s c = run_lem (step a x) cs (step-IsSubnet a x s) (step-IsConsistent a x s c)

-- What `NewIPAM` returns.
abbrev Starts : Result Error Ipam → Type 0
Starts (err x) = Unit
Starts (ok a) = a.base + 100 < 2 ^ 32 → IsSubnet a × IsConsistent a

new_ipam-Starts : (c : Cidr) → Starts (new_ipam c)
unfolding new_ipam get
new_ipam-Starts malformed = tt
new_ipam-Starts ipv6 = tt
new_ipam-Starts (ipv4 addr ones) = elim (Bool-cases (ltb ones 8 || ltb 30 ones)) [
  | inl bad ↦ rw (bad, new_ipam) tt
  | inr fine ↦
      rw (fine, new_ipam)
        (λ low. (
          record { low = low; span = refl },
          record { owner = λ t h q. cc; address = λ t h q. cc; host = λ t h q. cc },
        ))
]

-- Over any history of `Allocate`, `AllocateGuest` and `Release` on an allocator that `NewIPAM` made for
-- a subnet below 255.255.255.156, the two maps are inverse to each other, so that no two tasks hold the
-- same address, and every address held lies strictly between the network and the broadcast address and
-- is not the gateway's.
pub run-IsConsistent :
    (c : Cidr) (a : Ipam) (calls : List Call)
    → new_ipam c ≡ ok a
    → a.base + 100 < 2 ^ 32
    → IsConsistent (run a calls)
run-IsConsistent c a calls h low =
    let (s, k) = subst Starts h (new_ipam-Starts c) low in run_lem a calls s k

-- Between the first address tried and `below`, everything is the gateway's or taken.
abbrev pub IsFull : Ipam → ℕ → Type 0
IsFull a below =
    (k : ℕ) → a.base + 100 ≤ k → k < below → (k ≡ a.gateway) ⊎ (is_taken a.taken k ≡ true)

abbrev pub Chosen : Ipam → String → Ipam × Result Error ℕ → Type 0
Chosen a t (a', ok h) =
    IsHost a h
    × (get a.taken h ≡ none)
    × IsFull a h
    × (get a'.by_task t ≡ some h)
    × (get a'.taken h ≡ some t)
Chosen a t (a', err x) = (x ≡ pool_exhausted) × (a' ≡ a) × IsFull a a.bcast

-- For a task without an address, `Allocate` takes the lowest address from the offset 100 on that is free
-- and not the gateway's; it fails only when there is none up to the broadcast address, and then
-- changes nothing.
pub allocate-Chosen :
    (a : Ipam) (t : String) → IsSubnet a → get a.by_task t ≡ none → Chosen a t (allocate a t)
unfolding allocate reserve
allocate-Chosen a t s n =
    let low = s.low in
    let first : first_host a ≡ a.base + 100 = omega arith in
    elim (Option-cases (seek_host a (a.bcast - first_host a) (first_host a))) [
      | inl full ↦
          rw (n, full, allocate)
            (
              refl,
              refl,
              λ k l r.
                  seek_host-none a (a.bcast - first_host a) (first_host a) k full (omega arith)
                    (omega arith),
            )
      | inr (h, found) ↦
          let (host, free) = seek_host-free a h s found in
          rw (n, found, allocate)
            (
              host,
              free,
              λ k l r.
                  seek_host-lowest a (a.bcast - first_host a) (first_host a) h k found (omega arith)
                    r,
              get-put_self a.by_task t h,
              get-put_self a.taken h t,
            )
    ]
