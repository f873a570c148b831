-- ===== src/Parsers/Unsigned/Examples.antt =====
-- Numbers at the limits, and the theorems at concrete texts.
use pimc_toolkit.Common.{ℕ, ◌≡◌, refl, List, [], ◌∷◌}
use pimc_toolkit.Core.Result.{ok, err}
use pimc_toolkit.Parsers.Chars.{all_digits, value_from}
use pimc_toolkit.Parsers.Unsigned.{
  invalid, overflow, parse_decimal_uint64, parse_decimal_uint32, parse_decimal_uint16,
  parse_decimal_uint8, parse_decimal_uints,
}

abbrev text_255 : List ℕ
text_255 = b'2' ∷ b'5' ∷ b'5' ∷ []

uint8_255 : parse_decimal_uint8 text_255 ≡ ok 255
unfolding parse_decimal_uint8
uint8_255 = refl

uint8_256 : parse_decimal_uint8 (b'2' ∷ b'5' ∷ b'6' ∷ []) ≡ err overflow
unfolding parse_decimal_uint8
uint8_256 = refl

uint8_bad_tail : parse_decimal_uint8 (b'9' ∷ b'9' ∷ b'9' ∷ b'x' ∷ []) ≡ err invalid
unfolding parse_decimal_uint8
uint8_bad_tail = refl

parse_decimal_uints_example :
    (parse_decimal_uint64 text_255 ≡ ok 255)
    × (parse_decimal_uint32 text_255 ≡ ok 255)
    × (parse_decimal_uint16 text_255 ≡ ok 255)
    × (parse_decimal_uint8 text_255 ≡ ok 255)
unfolding all_digits value_from
parse_decimal_uints_example = parse_decimal_uints text_255
