-- ===== src/Parsers/Ipv4/Examples.antt =====
-- The IPv4 parsers at concrete texts.
use pimc_toolkit.Common.{ℕ, ◌≡◌, ◌⊎◌, ◌↔◌, refl, List, [], ◌∷◌, ◌++◌, none, some, done}
use pimc_toolkit.Net.Address.{IPv4Address, of_octets}
use pimc_toolkit.Net.Prefix.{IPv4Prefix, make}
use pimc_toolkit.Parsers.Ipv4.{parse_ipv4_address, parse_ipv4_prefix}
use pimc_toolkit.Parsers.Ipv4.Sound.{IsDotted, parse_ipv4_address_iff}
use pimc_toolkit.Parsers.Ipv4.Prefixes.{IsPrefixText, IsPrefixOf, parse_ipv4_prefix_cases}

-- 10.1.2.255
abbrev text_address : List ℕ
text_address = b'1' ∷ b'0' ∷ b'.' ∷ b'1' ∷ b'.' ∷ b'2' ∷ b'.' ∷ b'2' ∷ b'5' ∷ b'5' ∷ []

address_parsed : parse_ipv4_address text_address ≡ some (of_octets 10 1 2 255)
unfolding parse_ipv4_address
address_parsed = refl

-- 10.1.2.256
octet_too_large :
    parse_ipv4_address (b'1' ∷ b'0' ∷ b'.' ∷ b'1' ∷ b'.' ∷ b'2' ∷ b'.' ∷ b'2' ∷ b'5' ∷ b'6' ∷ [])
    ≡ none
unfolding parse_ipv4_address
octet_too_large = refl

empty_text : parse_ipv4_address [] ≡ some 0
unfolding parse_ipv4_address
empty_text = refl

prefix_parsed :
    parse_ipv4_prefix (text_address ++ (b'/' ∷ b'1' ∷ b'2' ∷ []))
    ≡ done (some (record { addr = of_octets 10 0 0 0; plen = 12 }))
unfolding parse_ipv4_prefix make
prefix_parsed = refl

prefix_too_long : parse_ipv4_prefix (text_address ++ (b'/' ∷ b'3' ∷ b'3' ∷ [])) ≡ done none
unfolding parse_ipv4_prefix
prefix_too_long = refl

parse_ipv4_address_iff_example : (parse_ipv4_address text_address ≡ some (of_octets 10 1 2 255)) ↔ (
    ((text_address ≡ []) × (of_octets 10 1 2 255 ≡ 0))
    ⊎ IsDotted text_address (of_octets 10 1 2 255) [])
parse_ipv4_address_iff_example = parse_ipv4_address_iff text_address (of_octets 10 1 2 255)

abbrev text_prefix : List ℕ
text_prefix = text_address ++ (b'/' ∷ b'1' ∷ b'2' ∷ [])

parse_ipv4_prefix_cases_example :
    ((a : IPv4Address) × (p : ℕ) × (x : IPv4Prefix) × IsPrefixText text_prefix a p
      × IsPrefixOf a p x
      × (parse_ipv4_prefix text_prefix ≡ done (some x)))
    ⊎ (((a : IPv4Address) (p : ℕ) → ¬ IsPrefixText text_prefix a p)
        × (parse_ipv4_prefix text_prefix ≡ done none))
parse_ipv4_prefix_cases_example = parse_ipv4_prefix_cases text_prefix
