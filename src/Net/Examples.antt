-- ===== src/Net/Examples.antt =====
-- Masks and prefixes at concrete addresses, and the theorems there.

use pimc_toolkit.Common.{
  ◌||◌, not, ℕ, ◌/◌, ◌^◌, ◌≤◌, ◌<◌, ◌≡◌, ◌≢◌, ◌⊎◌, ◌↔◌, refl, true, false, done, raised,
  invalid_argument, logic_error, arith, List, [], ◌∷◌, some,
}
use pimc_toolkit.Net.Address.{from_nl, IPv4Address, of_octets, mask_value, is_mask, to_mask}
use pimc_toolkit.Core.Result.{ok}
use pimc_toolkit.Net.IntfTable.{
  IntfInfo, IntfTable, IfAddr, other_family, inet, new_table, by_name, by_index,
}
use pimc_toolkit.Net.IntfTable.Consistent.{by_name-by_index}
use pimc_toolkit.Net.Mask.{to_mask_cases}
use pimc_toolkit.Net.Prefix.{
  order_lem, gt_prefix, le_prefix, ge_prefix, eq_prefix, ne_prefix, IPv4Prefix, IsCanonical, make,
  contains, contains_prefix, lt_prefix, make_cases, contains_iff, contains_prefix_subset,
}

abbrev mask_21 : IPv4Address
mask_21 = of_octets 255 255 248 0

mask_21_length : to_mask mask_21 ≡ done 21
unfolding to_mask
mask_21_length = refl

no_mask : to_mask (of_octets 255 0 255 0) ≡ raised logic_error
unfolding to_mask
no_mask = refl

abbrev net_10 : IPv4Prefix
net_10 = record { addr = of_octets 10 0 0 0; plen = 8 }

abbrev net_10_1 : IPv4Prefix
net_10_1 = record { addr = of_octets 10 1 0 0; plen = 16 }

net_10-IsCanonical : IsCanonical net_10
net_10-IsCanonical = omega arith

net_10_1-IsCanonical : IsCanonical net_10_1
net_10_1-IsCanonical = omega arith

to_mask_cases_example :
    ((p : ℕ) × (p ≤ 32)
      × (mask_21 ≡ mask_value p)
      × (is_mask mask_21 ≡ true)
      × (to_mask mask_21 ≡ done p))
    ⊎ (((p : ℕ) → p ≤ 32 → mask_21 ≢ mask_value p)
        × (is_mask mask_21 ≡ false)
        × (to_mask mask_21 ≡ raised logic_error))
to_mask_cases_example = to_mask_cases mask_21 (omega arith)

make_cases_example :
    ((x : IPv4Prefix) × (15 ≤ 32)
      × (make (of_octets 123 235 34 45) 15 ≡ done x)
      × IsCanonical x
      × (x.plen ≡ 15)
      × (x.addr / 2 ^ 17 ≡ of_octets 123 235 34 45 / 2 ^ 17))
    ⊎ ((32 < 15) × (make (of_octets 123 235 34 45) 15 ≡ raised invalid_argument))
make_cases_example = make_cases (of_octets 123 235 34 45) 15 (omega arith)

contains_iff_example :
    (contains net_10 (of_octets 10 1 2 3) ≡ true)
    ↔ (of_octets 10 0 0 0 / 2 ^ 24 ≡ of_octets 10 1 2 3 / 2 ^ 24)
contains_iff_example = contains_iff net_10 (of_octets 10 1 2 3) net_10-IsCanonical (omega arith)

contains_prefix_subset_example : (8 < 16) × (contains net_10 (of_octets 10 1 2 3) ≡ true)
unfolding contains_prefix
contains_prefix_subset_example =
    contains_prefix_subset net_10 net_10_1 (of_octets 10 1 2 3) net_10-IsCanonical
      net_10_1-IsCanonical (omega arith) (omega arith) refl refl

order_lem_example :
    (lt_prefix net_10 net_10_1 ≡ gt_prefix net_10_1 net_10)
    × (le_prefix net_10 net_10_1 ≡ (lt_prefix net_10 net_10_1 || eq_prefix net_10 net_10_1))
    × (ge_prefix net_10 net_10_1 ≡ not (lt_prefix net_10 net_10_1))
    × (ne_prefix net_10 net_10_1 ≡ not (eq_prefix net_10 net_10_1))
    × (gt_prefix net_10 net_10_1 ≡ not (le_prefix net_10 net_10_1))
order_lem_example = order_lem net_10 net_10_1

-- One interface with an address, and its entry for another family.
abbrev interface_e : IntfInfo
interface_e = record { name = b'e' ∷ []; ifindex = 7; ipv4addr = some (from_nl 16777226) }

abbrev one_table : IntfTable
one_table = record { index_map = (7, interface_e) ∷ []; name_map = (b'e' ∷ [], 7) ∷ [] }

abbrev two_entries : List IfAddr
two_entries =
    record { ifa_name = b'e' ∷ []; ifa_addr = other_family }
    ∷ record { ifa_name = b'e' ∷ []; ifa_addr = inet 16777226 }
    ∷ []

two_entries_table : new_table (λ n. 7) (some two_entries) ≡ done (ok one_table)
unfolding new_table
two_entries_table = refl

by_name-by_index_example :
    (interface_e.name ≡ b'e' ∷ []) × (by_index 7 one_table ≡ some interface_e)
unfolding by_name
by_name-by_index_example =
    by_name-by_index (λ n. 7) (some two_entries) one_table (b'e' ∷ []) interface_e two_entries_table
      refl
