-- ===== src/Parsers/Ipv4.antt =====
-- lib/pimc/parsers/IPv4Parsers.hpp. An iterator is the part of the text from its position on; two
-- iterators into one text are equal where these parts are of one length.
pub mod Octets
pub mod Numbers
pub mod Octet
pub mod Sound
pub mod Prefixes
mod Examples
use pimc_toolkit.Common.{
  ℕ, ◌+◌, ◌-◌, ◌*◌, ◌%◌, ◌^◌, List, [], ◌∷◌, Bool, true, false, not, ◌||◌, Option, none, some, ltb,
  ◌==◌, if◌then◌else◌, length, Run, done, raised, fault, stuck,
}
use pimc_toolkit.Common.Maybe.{◌>>=◌}
use pimc_toolkit.Net.Address.{IPv4Address, of_octets}
use pimc_toolkit.Net.Prefix.{IPv4Prefix, make}
use pimc_toolkit.Parsers.Chars.{is_digit}

abbrev pub same_position : List ℕ → List ℕ → Bool
same_position s t = length s == length t

-- The loop of `parseBoundedUInt` on `ii`, `oct` and `haveDigs`.
unfoldable pub bounded_loop : ℕ → List ℕ → List ℕ → ℕ → Bool → ℕ × List ℕ
bounded_loop max_val first [] oct have_digs = if have_digs then (oct, []) else (0, first)
bounded_loop max_val first (c ∷ s) oct have_digs =
    let oct' = (oct * 10 + (c - b'0')) % 2 ^ 32 in
    let rest = bounded_loop max_val first s oct' true in
    if is_digit c
    then if ltb max_val oct' then (0, first) else rest
    else if have_digs
    then (oct, c ∷ s)
    else (0, first)

unfoldable pub parse_bounded_uint : ℕ → List ℕ → ℕ × List ℕ
unfolding bounded_loop
parse_bounded_uint max_val first = bounded_loop max_val first first 0 false

-- The text behind a dot at its front.
abbrev pub behind_dot : List ℕ → Option (List ℕ)
behind_dot [] = none
behind_dot (c ∷ s) = if c == b'.' then some s else none

-- An octet at `ii` and the text behind its dot, or the condition of an early return.
unfoldable pub octet_dot : List ℕ → Option (ℕ × List ℕ)
unfolding parse_bounded_uint
octet_dot ii = do
  let r = parse_bounded_uint 255 ii
  rest ← if same_position r.1 ii then none else behind_dot r.1
  some (r.0, rest)

-- The last octet.
unfoldable pub octet_end : List ℕ → Option (ℕ × List ℕ)
unfolding parse_bounded_uint
octet_end ii = let r = parse_bounded_uint 255 ii in if same_position r.1 ii then none else some r

-- `parseIPv4AddressImpl` up to its results: `none` is `return std::make_tuple(0u, first)`.
unfoldable pub four_octets : List ℕ → Option (IPv4Address × List ℕ)
unfolding octet_dot octet_end
four_octets first = do
  (o1, s1) ← octet_dot first
  (o2, s2) ← octet_dot s1
  (o3, s3) ← octet_dot s2
  (o4, s4) ← octet_end s3
  some (of_octets o1 o2 o3 o4, s4)

abbrev pub or_first : Option (ℕ × List ℕ) → List ℕ → ℕ × List ℕ
or_first none first = (0, first)
or_first (some r) first = r

unfoldable pub parse_address_impl : List ℕ → IPv4Address × List ℕ
unfolding four_octets
parse_address_impl first = or_first (four_octets first) first

unfoldable pub parse_prefix_length_impl : List ℕ → ℕ × List ℕ
unfolding parse_bounded_uint
parse_prefix_length_impl [] = (0, [])
parse_prefix_length_impl (c ∷ ii) =
    let r = parse_bounded_uint 32 ii in
    if not (c == b'/') then (0, c ∷ ii) else if same_position r.1 ii then (0, c ∷ ii) else r

abbrev pub is_empty : List ℕ → Bool
is_empty [] = true
is_empty (c ∷ s) = false

unfoldable pub parse_ipv4_address : List ℕ → Option IPv4Address
unfolding parse_address_impl
parse_ipv4_address first =
    let r = parse_address_impl first in if not (is_empty r.1) then none else some r.0

-- `make` may throw, which `parseIPv4Prefix` passes on.
abbrev made : Run IPv4Prefix → Run (Option IPv4Prefix)
made (done x) = done (some x)
made (raised e) = raised e
made fault = fault
made stuck = stuck

unfoldable pub parse_ipv4_prefix : List ℕ → Run (Option IPv4Prefix)
unfolding parse_address_impl parse_prefix_length_impl
parse_ipv4_prefix first =
    let a = parse_address_impl first in
    let p = parse_prefix_length_impl a.1 in
    if same_position a.1 first || is_empty a.1
    then done none
    else if same_position p.1 a.1 || not (is_empty p.1)
    then done none
    else made (make a.0 p.0)
