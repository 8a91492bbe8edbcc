-- ===== src/Network/Ipam.antt =====
-- internal/network/ipam.go: `NewIPAM`, `Allocate`, `AllocateGuest` and `Release` on 32-bit addresses.
-- What `net.ParseCIDR` and `net.ParseIP` make of a text is an argument.
use pvm.Prelude.{
  ℕ, zero, suc, ◌+◌, ◌-◌, ◌*◌, ◌/◌, ◌%◌, ◌^◌, String, Bool, true, false, ◌||◌, not, Option, none,
  some, [], ◌==◌, ltb, text_comparable, nat_comparable, if◌then◌else◌, Result, ok, err,
}
use pvm.Prelude.Dict.{Dict, get, put, del}

abbrev pub guest_ip_start_host : ℕ
guest_ip_start_host = 100

pub data Error : Type 0 where
  invalid_cidr cidr_not_ipv4 bad_prefix pool_exhausted : Error
  invalid_guest outside_subnet is_gateway is_reserved holds_another already_allocated : Error

-- An address and a prefix length, when the text has them.
pub data Cidr : Type 0 where
  malformed ipv6 : Cidr
  ipv4 : ℕ → ℕ → Cidr

pub record Ipam : Type 0 where
  pub ones : ℕ
  pub gateway : ℕ
  pub base : ℕ
  pub bcast : ℕ
  pub by_task : Dict String ℕ
  pub taken : Dict ℕ String

-- The addresses of a subnet: `^mask + 1`.
abbrev pub subnet_size : ℕ → ℕ
subnet_size ones = 2 ^ (32 - ones)

-- `addr & mask`, `addr | ^mask`.
abbrev pub mask_base : ℕ → ℕ → ℕ
mask_base ones addr = addr / subnet_size ones * subnet_size ones

unfoldable pub new_ipam : Cidr → Result Error Ipam
new_ipam malformed = err invalid_cidr
new_ipam ipv6 = err cidr_not_ipv4
new_ipam (ipv4 addr ones) =
    if ltb ones 8 || ltb 30 ones
    then err bad_prefix
    else ok (record {
      ones = ones;
      gateway = addr;
      base = mask_base ones addr;
      bcast = mask_base ones addr + (subnet_size ones - 1);
      by_task = [];
      taken = [];
    })

abbrev pub is_taken : Dict ℕ String → ℕ → Bool
is_taken taken host = elim (get taken host) [ none ↦ false | some task ↦ true ]

-- The loop over `host`, for the number of addresses that are left below the broadcast address.
unfoldable pub seek_host : Ipam → ℕ → ℕ → Option ℕ
seek_host a zero host = none
seek_host a (suc n) host =
    let rest = seek_host a n (host + 1) in
    if host == a.gateway then rest else if is_taken a.taken host then rest else some host

-- The first address that `Allocate` tries: uint32 addition.
abbrev pub first_host : Ipam → ℕ
first_host a = (a.base + guest_ip_start_host) % 2 ^ 32

unfoldable pub reserve : Ipam → String → ℕ → Ipam
reserve a task host = record a { by_task = put a.by_task task host; taken = put a.taken host task }

unfoldable pub allocate : Ipam → String → Ipam × Result Error ℕ
unfolding seek_host reserve
allocate a task = elim (get a.by_task task) [
  | some cur ↦ (a, ok cur)
  | none ↦ elim (seek_host a (a.bcast - first_host a) (first_host a)) [
    | some host ↦ (reserve a task host, ok host)
    | none ↦ (a, err pool_exhausted)
  ]
]

abbrev pub contains : Ipam → ℕ → Bool
contains a host = mask_base a.ones host == a.base

abbrev pub pin_free : Ipam → String → ℕ → Option String → Ipam × Result Error ℕ
pin_free a task host (some owner) = (a, err already_allocated)
pin_free a task host none = (reserve a task host, ok host)

abbrev pub pin : Ipam → String → ℕ → Option ℕ → Ipam × Result Error ℕ
pin a task host (some cur) = if cur == host then (a, ok cur) else (a, err holds_another)
pin a task host none = pin_free a task host (get a.taken host)

-- `none` where the text is not an IPv4 address.
unfoldable pub allocate_guest : Ipam → String → Option ℕ → Ipam × Result Error ℕ
unfolding reserve
allocate_guest a task none = (a, err invalid_guest)
allocate_guest a task (some host) =
    if not (contains a host)
    then (a, err outside_subnet)
    else if host == a.gateway
    then (a, err is_gateway)
    else if host == a.base || host == a.bcast
    then (a, err is_reserved)
    else pin a task host (get a.by_task task)

unfoldable pub release : Ipam → String → Ipam
release a task = elim (get a.by_task task) [
  | none ↦ a
  | some cur ↦ record a { by_task = del a.by_task task; taken = del a.taken cur }
]
