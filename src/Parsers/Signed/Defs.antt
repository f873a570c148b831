-- ===== src/Parsers/Signed/Defs.antt =====
-- `parseDecimalSignedInteger` of lib/pimc/parsers/NumberParsers.hpp and its instances.
use pimc_toolkit.Common.{
  ℕ, ◌-◌, List, [], ◌∷◌, Bool, true, false, ◌&&◌, ◌||◌, ltb, leb, ◌==◌, if◌then◌else◌, Run, done,
  fault, ◌>>=◌,
}
use pimc_toolkit.Common.Int.{ℤ, pos, neg, shift_in, is_signed, narrow, ltℤ, eqℤ}
use pimc_toolkit.Core.Result.{Result, ok, err}
use pimc_toolkit.Parsers.Chars.{is_digit, c_string}
use pimc_toolkit.Parsers.Unsigned.{NumberParseError, invalid, overflow}

pub record SignedLimits : Type 0 where
  pub width : ℕ
  pub last_step : ℕ
  pub positive_last_digit : ℕ
  pub negative_last_digit : ℕ

-- Integers narrower than `int` are computed with as `int`.
abbrev pub promoted : ℕ → ℕ
promoted w = if ltb w 32 then 32 else w

-- The result of an operation on values of `w` bits, converted back to that type.
abbrev pub computed : ℕ → ℤ → Run ℤ
computed w z = if is_signed (promoted w) z then done (narrow w z) else fault

abbrev pub take_signed_digit : SignedLimits → ℕ → Bool → ℤ → ℕ → Run (Bool × ℤ)
take_signed_digit lim last_digit ovf acc d =
    if ovf
    then done (true, acc)
    else if ltℤ acc lim.last_step || (eqℤ acc lim.last_step && leb d last_digit)
    then computed lim.width (shift_in acc d) >>= (λ acc'. done (false, acc'))
    else done (true, acc)

unfoldable pub signed_loop : SignedLimits → ℕ → List ℕ → Bool → ℤ → Run (Result ℤ NumberParseError)
signed_loop lim last_digit [] ovf acc = done (if ovf then err overflow else ok acc)
signed_loop lim last_digit (c ∷ s) ovf acc =
    let rest = take_signed_digit lim last_digit ovf acc (c - b'0') >>= λ st.
    signed_loop lim last_digit s st.0 st.1 in
    if is_digit c then rest else done (err invalid)

abbrev pub negated : SignedLimits → Result ℤ NumberParseError → Run (Result ℤ NumberParseError)
negated lim (ok acc) = computed lim.width (neg acc) >>= λ z. done (ok z)
negated lim (err e) = done (err e)

-- What stands behind the sign, which may not be empty.
unfoldable pub behind_sign : SignedLimits → Bool → List ℕ → Run (Result ℤ NumberParseError)
unfolding signed_loop
behind_sign lim positive [] = done (err invalid)
behind_sign lim true (c ∷ s) = signed_loop lim lim.positive_last_digit (c ∷ s) false (pos 0)
behind_sign lim false (c ∷ s) =
    signed_loop lim lim.negative_last_digit (c ∷ s) false (pos 0) >>= negated lim

unfoldable pub parse_decimal_signed_integer :
    SignedLimits → List ℕ → Run (Result ℤ NumberParseError)
unfolding behind_sign
parse_decimal_signed_integer lim [] = done (err invalid)
parse_decimal_signed_integer lim (c ∷ s) =
    if c == b'-'
    then behind_sign lim false s
    else if c == b'+'
    then behind_sign lim true s
    else behind_sign lim true (c ∷ s)

abbrev pub i64 : SignedLimits
i64 = record {
  width = 64;
  last_step = 922337203685477580;
  positive_last_digit = 7;
  negative_last_digit = 8;
}

abbrev pub i32 : SignedLimits
i32 = record { width = 32; last_step = 214748364; positive_last_digit = 7; negative_last_digit = 8 }

abbrev pub i16 : SignedLimits
i16 = record { width = 16; last_step = 3276; positive_last_digit = 7; negative_last_digit = 8 }

abbrev pub i8 : SignedLimits
i8 = record { width = 8; last_step = 12; positive_last_digit = 7; negative_last_digit = 8 }

unfoldable pub parse_decimal_int64 : List ℕ → Run (Result ℤ NumberParseError)
unfolding parse_decimal_signed_integer
parse_decimal_int64 s = parse_decimal_signed_integer i64 s

unfoldable pub parse_decimal_int64_c : List ℕ → Run (Result ℤ NumberParseError)
unfolding parse_decimal_int64 c_string
parse_decimal_int64_c s = parse_decimal_int64 (c_string s)

unfoldable pub parse_decimal_int32 : List ℕ → Run (Result ℤ NumberParseError)
unfolding parse_decimal_signed_integer
parse_decimal_int32 s = parse_decimal_signed_integer i32 s

unfoldable pub parse_decimal_int32_c : List ℕ → Run (Result ℤ NumberParseError)
unfolding parse_decimal_int32 c_string
parse_decimal_int32_c s = parse_decimal_int32 (c_string s)

unfoldable pub parse_decimal_int16 : List ℕ → Run (Result ℤ NumberParseError)
unfolding parse_decimal_signed_integer
parse_decimal_int16 s = parse_decimal_signed_integer i16 s

unfoldable pub parse_decimal_int16_c : List ℕ → Run (Result ℤ NumberParseError)
unfolding parse_decimal_int16 c_string
parse_decimal_int16_c s = parse_decimal_int16 (c_string s)

unfoldable pub parse_decimal_int8 : List ℕ → Run (Result ℤ NumberParseError)
unfolding parse_decimal_signed_integer
parse_decimal_int8 s = parse_decimal_signed_integer i8 s

unfoldable pub parse_decimal_int8_c : List ℕ → Run (Result ℤ NumberParseError)
unfolding parse_decimal_int8 c_string
parse_decimal_int8_c s = parse_decimal_int8 (c_string s)
