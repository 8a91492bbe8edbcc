-- ===== src/Network/Addresses.antt =====
-- What internal/network/ipam.go promises: an address belongs to one task, and is a host address of the
-- subnet.
use pvm.Prelude.{
  ℕ, zero, suc, ◌+◌, ◌-◌, ◌*◌, ◌/◌, ◌^◌, ◌≤◌, ◌<◌, String, ◌≡◌, refl, true, ◌||◌, Option, none,
  some, List, [], ◌∷◌, ◌==◌, text_comparable, nat_comparable, eq_iff, arith, inl, inr, Bool-cases,
  Option-cases, ◌⊎◌,
}
use pvm.Prelude.Dict.{get, get-put, get-del}
use native.Mathlib.Nat.{mod-lt, div-add-mod', one-le-pow}
use pvm.Network.Ipam.{
  Ipam, is_taken, seek_host, first_host, reserve, allocate, contains, pin, allocate_guest, release,
  subnet_size,
}

-- The two maps are inverse to each other, and hold host addresses of the subnet.
pub record IsConsistent (a : Ipam) : Type 0 where
  pub owner : (t : String) (h : ℕ) → get a.by_task t ≡ some h → get a.taken h ≡ some t
  pub address : (t : String) (h : ℕ) → get a.taken h ≡ some t → get a.by_task t ≡ some h
  pub host :
      (t : String) (h : ℕ)
      → get a.by_task t ≡ some h
      → (a.base < h) × (h < a.bcast) × ¬ (h ≡ a.gateway)

reserve-IsConsistent :
    (a : Ipam) (t : String) (h : ℕ)
    → get a.by_task t ≡ none
    → get a.taken h ≡ none
    → (a.base < h) × (h < a.bcast) × ¬ (h ≡ a.gateway)
    → IsConsistent a
    → IsConsistent (reserve a t h)
unfolding reserve
reserve-IsConsistent a t h n f r c = record {
  owner = λ u k.
      ground (arith, get-put a.by_task t u h, get-put a.taken h k t, eq_iff t u, c.owner u k);
  address = λ u k. ground (
    arith,
    get-put a.by_task t u h,
    get-put a.taken h k t,
    eq_iff t u,
    c.address u k,
    c.owner u k,
  );
  host = λ u k. ground (arith, get-put a.by_task t u h, eq_iff t u, c.host u k);
}

release-IsConsistent : (a : Ipam) (t : String) → IsConsistent a → IsConsistent (release a t)
unfolding release
release-IsConsistent a t c = elim (Option-cases (get a.by_task t)) [
  | inl none? ↦ rw (none?, release) c
  | inr (cur, held) ↦
      rw (held, release)
        (record {
          owner = λ u k. ground (
            arith,
            get-del a.by_task t u,
            get-del a.taken cur k,
            eq_iff t u,
            c.owner u k,
            c.owner t cur held,
          );
          address = λ u k. ground (
            arith,
            get-del a.by_task t u,
            get-del a.taken cur k,
            eq_iff t u,
            c.address u k,
            held,
          );
          host = λ u k. ground (arith, get-del a.by_task t u, eq_iff t u, c.host u k);
        })
]

-- What the loop finds is the lowest address that is neither the gateway's nor taken.
seek_host-some :
    (a : Ipam) (n from h : ℕ)
    → seek_host a n from ≡ some h
    → (from ≤ h) × (h < from + n) × ¬ (h ≡ a.gateway) × (get a.taken h ≡ none)
unfolding seek_host
seek_host-some a zero from h q = ground (arith, q)
seek_host-some a (suc n) from h q = ground (arith, q, seek_host-some a n (from + 1) h)

pub seek_host-lowest :
    (a : Ipam) (n from h k : ℕ)
    → seek_host a n from ≡ some h
    → from ≤ k
    → k < h
    → (k ≡ a.gateway) ⊎ (is_taken a.taken k ≡ true)
unfolding seek_host
seek_host-lowest a zero from h k q l r = ground (arith, q)
seek_host-lowest a (suc n) from h k q l r = ground (arith, q, seek_host-lowest a n (from + 1) h k)

pub seek_host-none :
    (a : Ipam) (n from k : ℕ)
    → seek_host a n from ≡ none
    → from ≤ k
    → k < from + n
    → (k ≡ a.gateway) ⊎ (is_taken a.taken k ≡ true)
unfolding seek_host
seek_host-none a zero from k q l r = ground (arith, l)
seek_host-none a (suc n) from k q l r = ground (arith, q, seek_host-none a n (from + 1) k)

-- A host address of the subnet, for a guest.
abbrev pub IsHost : Ipam → ℕ → Type 0
IsHost a h = (a.base < h) × (h < a.bcast) × ¬ (h ≡ a.gateway)

-- The subnet is that of its prefix, and its address plus 100 does not wrap around.
pub record IsSubnet (a : Ipam) : Type 0 where
  pub low : a.base + 100 < 2 ^ 32
  pub span : a.bcast ≡ a.base + (subnet_size a.ones - 1)

pub seek_host-free :
    (a : Ipam) (h : ℕ)
    → IsSubnet a
    → seek_host a (a.bcast - first_host a) (first_host a) ≡ some h
    → IsHost a h × (get a.taken h ≡ none)
seek_host-free a h s q =
    let (l, r, g, f) = seek_host-some a (a.bcast - first_host a) (first_host a) h q in
    let x = s.low in ((omega arith, omega arith, g), f)

allocate-IsConsistent :
    (a : Ipam) (t : String) → IsSubnet a → IsConsistent a → IsConsistent (allocate a t).0
unfolding allocate
allocate-IsConsistent a t s c = elim (Option-cases (get a.by_task t)) [
  | inr (cur, held) ↦ rw (held, allocate) c
  | inl none? ↦ elim (Option-cases (seek_host a (a.bcast - first_host a) (first_host a))) [
    | inl full ↦ rw (none?, full, allocate) c
    | inr (h, found) ↦
        let (r, f) = seek_host-free a h s found in
        rw (none?, found, allocate) (reserve-IsConsistent a t h none? f r c)
  ]
]

contains-span : (a : Ipam) (h : ℕ) → IsSubnet a → contains a h ≡ true → (a.base ≤ h) × (h ≤ a.bcast)
contains-span a h s q =
    let k = subnet_size a.ones in
    let p : 0 < k = one-le-pow (32 - a.ones) 2 (omega arith) in
    let r = mod-lt h p in
    let e = div-add-mod' h k in
    let b : h / k * k ≡ a.base = (nat_comparable.equal_iff (h / k * k) a.base).0 q in
    let w = s.span in (ground (arith, e, b, r), ground (arith, e, b, r, w))

pin-IsConsistent :
    (a : Ipam) (t : String) (h : ℕ) (o : Option ℕ)
    → get a.by_task t ≡ o
    → IsHost a h
    → IsConsistent a
    → IsConsistent (pin a t h o).0
pin-IsConsistent a t h (some cur) q r c = elim (Bool-cases (cur == h)) [
  | inl same ↦ rw same c
  | inr other ↦ rw other c
]
pin-IsConsistent a t h none q r c = elim (Option-cases (get a.taken h)) [
  | inl free ↦ rw free (reserve-IsConsistent a t h q free r c)
  | inr (owner, used) ↦ rw used c
]

allocate_guest-IsConsistent :
    (a : Ipam) (t : String) (o : Option ℕ)
    → IsSubnet a
    → IsConsistent a
    → IsConsistent (allocate_guest a t o).0
unfolding allocate_guest
allocate_guest-IsConsistent a t none s c = c
allocate_guest-IsConsistent a t (some h) s c = elim (Bool-cases (contains a h)) [
  | inr out ↦ rw (out, allocate_guest) c
  | inl inside ↦ elim (Bool-cases (h == a.gateway)) [
    | inl gw ↦ rw (inside, gw, allocate_guest) c
    | inr guest ↦ elim (Bool-cases (h == a.base || h == a.bcast)) [
      | inl end ↦ rw (inside, guest, end, allocate_guest) c
      | inr free ↦
          let (l, r) = contains-span a h s inside in
          rw (inside, guest, free, allocate_guest)
            (pin-IsConsistent a t h (get a.by_task t) refl
              (ground (arith, l, free), ground (arith, r, free), ground (arith, guest)) c)
    ]
  ]
]

-- A call on the allocator, with what `net.ParseIP` made of a pinned address.
pub data Call : Type 0 where
  next : String → Call
  pinned : String → Option ℕ → Call
  free : String → Call

unfoldable pub step : Ipam → Call → Ipam
step a (next task) = (allocate a task).0
step a (pinned task ip) = (allocate_guest a task ip).0
step a (free task) = release a task

unfoldable pub run : Ipam → List Call → Ipam
run a [] = a
run a (c ∷ cs) = run (step a c) cs

pub step-IsConsistent :
    (a : Ipam) (c : Call) → IsSubnet a → IsConsistent a → IsConsistent (step a c)
unfolding step
step-IsConsistent a (next t) s c = allocate-IsConsistent a t s c
step-IsConsistent a (pinned t ip) s c = allocate_guest-IsConsistent a t ip s c
step-IsConsistent a (free t) s c = release-IsConsistent a t c

-- No call changes the subnet.
pub step-subnet :
    (a : Ipam) (c : Call)
    → ((step a c).base ≡ a.base) × ((step a c).bcast ≡ a.bcast) × ((step a c).ones ≡ a.ones)
unfolding step allocate allocate_guest release reserve
step-subnet a (next t) = (ground arith, ground arith, ground arith)
step-subnet a (pinned t none) = (refl, refl, refl)
step-subnet a (pinned t (some h)) = (ground arith, ground arith, ground arith)
step-subnet a (free t) = (ground arith, ground arith, ground arith)
