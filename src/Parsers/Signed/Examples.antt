-- ===== src/Parsers/Signed/Examples.antt =====
-- Signed numbers near the limits, and the theorems at concrete texts.
use pimc_toolkit.Common.{ℕ, ◌≡◌, refl, List, [], ◌∷◌, ◌++◌, arith, done, fault}
use pimc_toolkit.Common.Int.{pos, negsuc}
use pimc_toolkit.Core.Result.{ok, err}
use pimc_toolkit.Parsers.Chars.{all_digits, value_from}
use pimc_toolkit.Parsers.Unsigned.{overflow}
use pimc_toolkit.Parsers.Signed.Defs.{
  i8, parse_decimal_signed_integer, parse_decimal_int64, parse_decimal_int32, parse_decimal_int16,
  parse_decimal_int8,
}
use pimc_toolkit.Parsers.Signed.Laws.{parse_decimal_ints_plain, parse_signed_negative}
use pimc_toolkit.Parsers.Signed.Minimum.{parse_least_narrow, parse_past_least, parse_least_wide}

abbrev text_12 : List ℕ
text_12 = b'1' ∷ b'2' ∷ []

abbrev text_327 : List ℕ
text_327 = b'2' ∷ b'7' ∷ b'6' ∷ []

int8_minus_129 : parse_decimal_int8 (b'-' ∷ b'1' ∷ b'2' ∷ b'9' ∷ []) ≡ done (err overflow)
unfolding parse_decimal_int8
int8_minus_129 = refl

int8_past_least : parse_decimal_int8 (b'-' ∷ b'1' ∷ b'2' ∷ b'8' ∷ b'5' ∷ []) ≡ done (ok (negsuc 4))
unfolding parse_decimal_int8
int8_past_least = refl

parse_decimal_ints_plain_example :
    (parse_decimal_int64 (b'+' ∷ text_12) ≡ done (ok (pos 12)))
    × (parse_decimal_int32 (b'+' ∷ text_12) ≡ done (ok (pos 12)))
    × (parse_decimal_int16 (b'+' ∷ text_12) ≡ done (ok (pos 12)))
    × (parse_decimal_int8 (b'+' ∷ text_12) ≡ done (ok (pos 12)))
unfolding all_digits value_from
parse_decimal_ints_plain_example = parse_decimal_ints_plain (b'+' ∷ text_12) refl

parse_signed_negative_example :
    parse_decimal_signed_integer i8 (b'-' ∷ b'1' ∷ b'2' ∷ []) ≡ done (ok (negsuc 11))
unfolding all_digits value_from
parse_signed_negative_example =
    parse_signed_negative i8 b'1' (b'2' ∷ []) (omega arith) refl (omega arith)

parse_least_narrow_example :
    (parse_decimal_int8 (b'-' ∷ b'1' ∷ b'2' ∷ b'8' ∷ []) ≡ done (ok (negsuc 127)))
    × (parse_decimal_int16 (b'-' ∷ b'3' ∷ b'2' ∷ b'7' ∷ b'6' ∷ b'8' ∷ [])
        ≡ done (ok (negsuc 32767)))
unfolding all_digits value_from
parse_least_narrow_example = parse_least_narrow b'1' b'3' (b'2' ∷ []) text_327 refl refl refl refl

parse_past_least_example :
    (parse_decimal_int8 (b'-' ∷ b'1' ∷ b'2' ∷ b'8' ∷ b'5' ∷ []) ≡ done (ok (negsuc 4)))
    × (parse_decimal_int16 (b'-' ∷ b'3' ∷ b'2' ∷ b'7' ∷ b'6' ∷ b'8' ∷ b'5' ∷ [])
        ≡ done (ok (negsuc 4)))
unfolding all_digits value_from
parse_past_least_example =
    parse_past_least b'1' b'3' b'5' (b'2' ∷ []) text_327 refl refl refl refl refl

abbrev wide_step : List ℕ
wide_step =
    b'2' ∷ b'2' ∷ b'3' ∷ b'3' ∷ b'7' ∷ b'2' ∷ b'0' ∷ b'3' ∷ b'6' ∷ b'8' ∷ b'5' ∷ b'4' ∷ b'7' ∷ b'7'
    ∷ b'5' ∷ b'8' ∷ b'0' ∷ []

parse_least_wide_example :
    (parse_decimal_int32
        (b'-' ∷ b'2' ∷ b'1' ∷ b'4' ∷ b'7' ∷ b'4' ∷ b'8' ∷ b'3' ∷ b'6' ∷ b'4' ∷ b'8' ∷ [])
      ≡ fault)
    × (parse_decimal_int64 (b'-' ∷ b'9' ∷ (wide_step ++ (b'8' ∷ []))) ≡ fault)
unfolding all_digits value_from
parse_least_wide_example =
    parse_least_wide b'2' b'9' (b'1' ∷ b'4' ∷ b'7' ∷ b'4' ∷ b'8' ∷ b'3' ∷ b'6' ∷ b'4' ∷ [])
      wide_step [] refl refl refl refl
