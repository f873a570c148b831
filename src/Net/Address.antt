-- ===== src/Net/Address.antt =====
-- lib/pimc/net/IPv4Address.hpp: an address is its 32-bit value.
use Prim.Native.Nat.{bit_and, bit_or, bit_xor}
use pimc_toolkit.Common.{
  ℕ, zero, suc, ◌+◌, ◌-◌, ◌*◌, ◌/◌, ◌%◌, ◌^◌, ◌<◌, ◌≡◌, Bool, true, not, ltb, leb, ◌==◌,
  if◌then◌else◌, sub32, Run, done, raised, invalid_argument, logic_error, stuck, arith,
}

abbrev pub IPv4Address : Type 0
IPv4Address = ℕ

-- `IPv4Address(uint8_t, uint8_t, uint8_t, uint8_t)`
abbrev pub of_octets : ℕ → ℕ → ℕ → ℕ → IPv4Address
of_octets o1 o2 o3 o4 = (o1 * 2 ^ 24 + o2 * 2 ^ 16 + o3 * 2 ^ 8 + o4) % 2 ^ 32

abbrev pub default_address_value : IPv4Address
default_address_value = 0

abbrev pub local_broadcast_address_value : IPv4Address
local_broadcast_address_value = 0xffff_ffff

-- `htonl` on a machine that stores the least significant byte first.
abbrev pub swap_bytes : ℕ → ℕ
swap_bytes x =
    x % 2 ^ 8 * 2 ^ 24
    + x / 2 ^ 8 % 2 ^ 8 * 2 ^ 16
    + x / 2 ^ 16 % 2 ^ 8 * 2 ^ 8
    + x / 2 ^ 24 % 2 ^ 8

abbrev pub from_nl : ℕ → IPv4Address
from_nl netlong = swap_bytes netlong

abbrev pub to_nl : IPv4Address → ℕ
to_nl a = swap_bytes a

-- The shift by 32 - plen is defined, as plen is not 0 there.
unfoldable pub mask_value : ℕ → ℕ
mask_value plen =
    if plen == 0
    then 0
    else sub32 local_broadcast_address_value (sub32 (2 ^ (32 - plen) % 2 ^ 32) 1)

-- The factory method `toMask(plen)`.
unfoldable pub mask_of_length : ℕ → Run IPv4Address
unfolding mask_value
mask_of_length plen = if ltb 32 plen then raised invalid_argument else done (mask_value plen)

abbrev pub oct1 : IPv4Address → ℕ
oct1 a = a / 2 ^ 24 % 2 ^ 8

abbrev pub oct2 : IPv4Address → ℕ
oct2 a = a / 2 ^ 16 % 2 ^ 8

abbrev pub oct3 : IPv4Address → ℕ
oct3 a = a / 2 ^ 8 % 2 ^ 8

abbrev pub oct4 : IPv4Address → ℕ
oct4 a = a % 2 ^ 8

unfoldable pub is_mcast : IPv4Address → Bool
is_mcast a = a / 2 ^ 28 == 14

unfoldable pub is_local_broadcast : IPv4Address → Bool
is_local_broadcast a = a == local_broadcast_address_value

unfoldable pub is_default : IPv4Address → Bool
is_default a = a == default_address_value

unfoldable pub is_loopback : IPv4Address → Bool
is_loopback a = a / 2 ^ 24 == 127

unfoldable pub is_mask : IPv4Address → Bool
is_mask a =
    let m = sub32 local_broadcast_address_value a in
    if a == default_address_value then true else bit_and ((m + 1) % 2 ^ 32) m == 0

-- The loop of `toMask()` on `pl`, `m` and `s`; `s` is halved each time, and `none` of the fuel is left
-- over where it is 0. Shifts are by less than 32.
mask_loop : ℕ → ℕ → ℕ → ℕ → Run ℕ
mask_loop zero pl m s = stuck
mask_loop (suc fuel) pl m s =
    let mn = m / 2 ^ s in
    let sn = s / 2 in
    let rest =
      mask_loop fuel (if ltb 0 mn then sub32 pl sn else (pl + sn) % 2 ^ 32)
        (if ltb 0 mn then mn else m) sn in
    if ltb 1 s then rest else done (if m == 1 then pl else sub32 pl 1)

-- The member function `toMask()`.
unfoldable pub to_mask : IPv4Address → Run ℕ
unfolding is_mask mask_loop
to_mask a =
    if a == local_broadcast_address_value
    then done 32
    else if not (is_mask a)
    then raised logic_error
    else mask_loop 5 16 (sub32 local_broadcast_address_value a) 16

-- The comparison operators.
abbrev pub lt_address : IPv4Address → IPv4Address → Bool
lt_address a b = ltb a b

abbrev pub le_address : IPv4Address → IPv4Address → Bool
le_address a b = leb a b

abbrev pub gt_address : IPv4Address → IPv4Address → Bool
gt_address a b = ltb b a

abbrev pub ge_address : IPv4Address → IPv4Address → Bool
ge_address a b = leb b a

abbrev pub eq_address : IPv4Address → IPv4Address → Bool
eq_address a b = a == b

abbrev pub ne_address : IPv4Address → IPv4Address → Bool
ne_address a b = not (a == b)

-- The bitwise operators.
abbrev pub and_address : IPv4Address → IPv4Address → IPv4Address
and_address a b = bit_and a b

abbrev pub xor_address : IPv4Address → IPv4Address → IPv4Address
xor_address a b = bit_xor a b

abbrev pub or_address : IPv4Address → IPv4Address → IPv4Address
or_address a b = bit_or a b

abbrev pub not_address : IPv4Address → IPv4Address
not_address a = 2 ^ 32 - 1 - a

abbrev pub octlen : ℕ → ℕ
octlen oct = if ltb oct 10 then 1 else if ltb oct 100 then 2 else 3

unfoldable pub charlen : IPv4Address → ℕ
charlen a = octlen (oct1 a) + octlen (oct2 a) + octlen (oct3 a) + octlen (oct4 a) + 3

-- The octets of an address are the four that it was made of, each below 256.
pub octets-of_octets :
    (o1 o2 o3 o4 : ℕ)
    → o1 < 256
    → o2 < 256
    → o3 < 256
    → o4 < 256
    → let a = of_octets o1 o2 o3 o4 in (oct1 a ≡ o1) × (oct2 a ≡ o2) × (oct3 a ≡ o3) × (oct4 a ≡ o4)
octets-of_octets o1 o2 o3 o4 h1 h2 h3 h4 = omega arith

pub of_octets-octets :
    (a : IPv4Address) → a < 2 ^ 32 → of_octets (oct1 a) (oct2 a) (oct3 a) (oct4 a) ≡ a
of_octets-octets a h = omega arith

-- An address of 32 bits, converted to network byte order and back, is the same.
pub from_nl-to_nl : (a : IPv4Address) → a < 2 ^ 32 → from_nl (to_nl a) ≡ a
from_nl-to_nl a h = omega arith
