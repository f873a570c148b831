-- ===== src/Loader/Addresses.antt =====
-- The checks of addresses: `ucAddr` of apps/pimc/config/ConfigUtils.hpp and `grpAddr` of
-- MulticastConfigLoader.hpp, for IPv4.
use pimc_toolkit.Common.{
  ◌≡◌, true, false, not, ◌||◌, none, some, if◌then◌else◌, Bool-cases, Option-cases, inl, inr, arith,
  Text,
}
use pimc_toolkit.Core.Result.{Result, ok, err}
use pimc_toolkit.Net.Address.{IPv4Address, is_mcast, is_local_broadcast, is_default, is_loopback}
use pimc_toolkit.Parsers.Ipv4.{parse_ipv4_address}
use pimc_toolkit.Loader.Errors.{
  UcAddrType, Message, invalid_address, invalid_unicast, address_loopback, address_multicast,
  invalid_group, not_multicast,
}

abbrev check_unicast : UcAddrType → IPv4Address → Result IPv4Address Message
check_unicast typ sa =
    if is_default sa || is_local_broadcast sa
    then err (invalid_unicast typ sa)
    else if is_loopback sa
    then err (address_loopback typ sa)
    else if is_mcast sa
    then err (address_multicast typ sa)
    else ok sa

unfoldable pub uc_addr : Text → UcAddrType → Result IPv4Address Message
unfolding parse_ipv4_address
uc_addr s typ = elim (parse_ipv4_address s) [
  | none ↦ err (invalid_address typ s)
  | some sa ↦ check_unicast typ sa
]

unfoldable pub grp_addr : Text → Result IPv4Address Message
unfolding parse_ipv4_address
grp_addr g = elim (parse_ipv4_address g) [
  | none ↦ err (invalid_group g)
  | some ga ↦ if not (is_mcast ga) then err (not_multicast ga) else ok ga
]

-- An address that a packet can come from: neither 0.0.0.0 nor a broadcast, loopback or multicast one.
pub record IsUnicast (a : IPv4Address) : Type 0 where
  pub not_default : is_default a ≡ false
  pub not_broadcast : is_local_broadcast a ≡ false
  pub not_loopback : is_loopback a ≡ false
  pub not_mcast : is_mcast a ≡ false

pub uc_addr-IsUnicast :
    (s : Text) (typ : UcAddrType) (a : IPv4Address) → uc_addr s typ ≡ ok a → IsUnicast a
unfolding uc_addr
uc_addr-IsUnicast s typ a h = elim (Option-cases (parse_ipv4_address s)) [
  | inl e ↦ let wrong : err (invalid_address typ s) ≡ ok a = rw (uc_addr, e) at h in cc
  | inr (sa, e) ↦ checked sa (rw (uc_addr, e) at h)
]
  where
    checked : (sa : IPv4Address) → check_unicast typ sa ≡ ok a → IsUnicast a
    checked sa k = record {
      not_default = ground (arith, k);
      not_broadcast = ground (arith, k);
      not_loopback = ground (arith, k);
      not_mcast = ground (arith, k);
    }

pub grp_addr-is_mcast : (g : Text) (a : IPv4Address) → grp_addr g ≡ ok a → is_mcast a ≡ true
unfolding grp_addr
grp_addr-is_mcast g a h = elim (Option-cases (parse_ipv4_address g)) [
  | inl e ↦ let wrong : err (invalid_group g) ≡ ok a = rw (grp_addr, e) at h in cc
  | inr (ga, e) ↦ checked ga (rw (grp_addr, e) at h)
]
  where
    checked :
        (ga : IPv4Address)
        → (if not (is_mcast ga) then err (not_multicast ga) else ok ga) ≡ ok a
        → is_mcast a ≡ true
    checked ga k = elim (Bool-cases (is_mcast ga)) [
      | inl m ↦ let same : ga ≡ a = ground (arith, k) in rw⁻¹ same m
      | inr m ↦ let wrong : err (not_multicast ga) ≡ ok a = rw m at k in cc
    ]
