-- ===== src/Address.antt =====
-- RandomIPFromPrefix of pkg/iputils/iputils.go, with the parts of net/netip that it uses. An address
-- is its number, of 32 or of 128 bits.
pub mod Within
pub mod Endpoint
pub mod Examples
use hiddify_core.Prelude.{
  ℕ, ◌+◌, ◌-◌, ◌*◌, ◌/◌, ◌%◌, Bool, true, false, not, ◌&&◌, Option, none, some, ltb, nat_eq,
  if◌then◌else◌, Outcome, done, failed, crashed,
}
use Prim.Native.Nat.{◌^◌}

-- netip.Addr
pub record IpAddr : Type 0 where
  pub is_4 : Bool
  pub value : ℕ

-- netip.Prefix; a prefix that is not valid has no number of bits.
pub record Prefix : Type 0 where
  pub addr : IpAddr
  pub bits : Option ℕ

abbrev pub bit_len : IpAddr → ℕ
bit_len a = if a.is_4 then 32 else 128

-- the number of addresses of a prefix of `b` bits
abbrev pub host_count : IpAddr → ℕ → ℕ
host_count a b = 2 ^ (bit_len a - b)

-- Masked().Addr()
abbrev pub masked_value : IpAddr → ℕ → ℕ
masked_value a b = a.value / host_count a b * host_count a b

abbrev pub masked : Prefix → IpAddr
masked p = elim p.bits [
  | none ↦ record { is_4 = false; value = 0 }
  | some b ↦ record { is_4 = p.addr.is_4; value = masked_value p.addr b }
]

-- 0xffff in front of 32 bits
abbrev pub is_mapped : ℕ → Bool
is_mapped n = nat_eq (n / 2 ^ 32) 65535

abbrev pub is_4_in_6 : IpAddr → Bool
is_4_in_6 a = not a.is_4 && is_mapped a.value

abbrev pub as_16 : IpAddr → ℕ
as_16 a = if a.is_4 then 65535 * 2 ^ 32 + a.value else a.value

-- AddrFromSlice of 16 bytes, and Unmap
abbrev pub unmapped : ℕ → IpAddr
unmapped n =
    if is_mapped n
    then record { is_4 = true; value = n % 2 ^ 32 }
    else record { is_4 = false; value = n }

-- FillBytes panics where the number does not fit.
unfoldable pub from_number : ℕ → Outcome IpAddr
from_number n = if ltb n (2 ^ 128) then done (unmapped n) else crashed

-- RandomIPFromPrefix, of the number that is drawn: it is taken below the number of addresses.
unfoldable pub random_ip_from_prefix : ℕ → Prefix → Outcome IpAddr
unfolding from_number
random_ip_from_prefix draw cidr =
    if is_4_in_6 (masked cidr) then failed "mapped v4 addresses not supported" else elim cidr.bits [
      | none ↦ failed "invalid cidr: invalid Prefix"
      | some b ↦ from_number (as_16 (masked cidr) + draw % host_count cidr.addr b)
    ]
