-- ===== src/Parsers/Unsigned.antt =====
-- The unsigned half of lib/pimc/parsers/NumberParsers.hpp.
mod Examples
use pimc_toolkit.Common.{
  ℕ, zero, suc, ◌+◌, ◌-◌, ◌*◌, ◌%◌, ◌^◌, ◌≤◌, ◌<◌, ◌≡◌, ◌∙◌, refl, List, [], ◌∷◌, ◌++◌, Bool, true,
  false, ◌&&◌, ◌||◌, ltb, leb, ◌==◌, if◌then◌else◌, arith, ap, Bool-cases, inl, inr,
}
use native.Mathlib.Nat.{mod-eq_of_lt}
use pimc_toolkit.Core.Result.{Result, ok, err}
use pimc_toolkit.Parsers.Chars.{is_digit, c_string, all_digits, value_from, value_from-le}

pub data NumberParseError : Type 0 where
  invalid overflow : NumberParseError

-- The template arguments: the width of the target type, and the last step and digit before it
-- overflows.
pub record Limits : Type 0 where
  pub width : ℕ
  pub last_step : ℕ
  pub last_digit : ℕ

-- A digit is taken into the accumulator, or the overflow is noted.
abbrev pub take_digit : Limits → Bool → ℕ → ℕ → Bool × ℕ
take_digit lim ovf acc d =
    if ovf
    then (true, acc)
    else if ltb acc lim.last_step || (acc == lim.last_step && leb d lim.last_digit)
    then (false, (acc * 10 + d) % 2 ^ lim.width)
    else (true, acc)

unfoldable pub parse_loop : Limits → List ℕ → Bool → ℕ → Result ℕ NumberParseError
parse_loop lim [] ovf acc = if ovf then err overflow else ok acc
parse_loop lim (c ∷ s) ovf acc =
    let st = take_digit lim ovf acc (c - b'0') in
    let rest = parse_loop lim s st.0 st.1 in if is_digit c then rest else err invalid

unfoldable pub parse_decimal_unsigned_integer : Limits → List ℕ → Result ℕ NumberParseError
unfolding parse_loop
parse_decimal_unsigned_integer lim [] = err invalid
parse_decimal_unsigned_integer lim (c ∷ s) = parse_loop lim (c ∷ s) false 0

abbrev pub u64 : Limits
u64 = record { width = 64; last_step = 1844674407370955161; last_digit = 5 }

abbrev pub u32 : Limits
u32 = record { width = 32; last_step = 429496729; last_digit = 5 }

abbrev pub u16 : Limits
u16 = record { width = 16; last_step = 6553; last_digit = 5 }

abbrev pub u8 : Limits
u8 = record { width = 8; last_step = 25; last_digit = 5 }

unfoldable pub parse_decimal_uint64 : List ℕ → Result ℕ NumberParseError
unfolding parse_decimal_unsigned_integer
parse_decimal_uint64 s = parse_decimal_unsigned_integer u64 s

unfoldable pub parse_decimal_uint64_c : List ℕ → Result ℕ NumberParseError
unfolding parse_decimal_uint64 c_string
parse_decimal_uint64_c s = parse_decimal_uint64 (c_string s)

unfoldable pub parse_decimal_uint32 : List ℕ → Result ℕ NumberParseError
unfolding parse_decimal_unsigned_integer
parse_decimal_uint32 s = parse_decimal_unsigned_integer u32 s

unfoldable pub parse_decimal_uint32_c : List ℕ → Result ℕ NumberParseError
unfolding parse_decimal_uint32 c_string
parse_decimal_uint32_c s = parse_decimal_uint32 (c_string s)

unfoldable pub parse_decimal_uint16 : List ℕ → Result ℕ NumberParseError
unfolding parse_decimal_unsigned_integer
parse_decimal_uint16 s = parse_decimal_unsigned_integer u16 s

unfoldable pub parse_decimal_uint16_c : List ℕ → Result ℕ NumberParseError
unfolding parse_decimal_uint16 c_string
parse_decimal_uint16_c s = parse_decimal_uint16 (c_string s)

unfoldable pub parse_decimal_uint8 : List ℕ → Result ℕ NumberParseError
unfolding parse_decimal_unsigned_integer
parse_decimal_uint8 s = parse_decimal_unsigned_integer u8 s

unfoldable pub parse_decimal_uint8_c : List ℕ → Result ℕ NumberParseError
unfolding parse_decimal_uint8 c_string
parse_decimal_uint8_c s = parse_decimal_uint8 (c_string s)

-- The last step and digit are those of the greatest value of the type.
pub record IsExact (lim : Limits) : Type 0 where
  pub greatest : lim.last_step * 10 + lim.last_digit + 1 ≡ 2 ^ lim.width
  pub digit : lim.last_digit ≤ 9

-- What a parser of unsigned numbers below `bound` is to answer: a text that is not made of digits is
-- invalid, also where it is too large besides.
abbrev pub decimal : ℕ → List ℕ → Result ℕ NumberParseError
decimal bound [] = err invalid
decimal bound (c ∷ s) =
    if all_digits (c ∷ s)
    then if ltb (value_from 0 (c ∷ s)) bound then ok (value_from 0 (c ∷ s)) else err overflow
    else err invalid

parse_loop_overflown :
    (lim : Limits) (s : List ℕ) (acc : ℕ)
    → parse_loop lim s true acc ≡ (if all_digits s then err overflow else err invalid)
unfolding parse_loop all_digits
parse_loop_overflown lim [] acc = refl
parse_loop_overflown lim (c ∷ s) acc = ground (arith, parse_loop_overflown lim s acc)

parse_loop_lem :
    (lim : Limits) (s : List ℕ) (acc : ℕ)
    → IsExact lim
    → acc < 2 ^ lim.width
    → parse_loop lim s false acc ≡ (
        if all_digits s
        then if ltb (value_from acc s) (2 ^ lim.width) then ok (value_from acc s) else err overflow
        else err invalid)
unfolding parse_loop all_digits value_from
parse_loop_lem lim [] acc ex h = ground arith
parse_loop_lem lim (c ∷ s) acc ex h = elim (Bool-cases (is_digit c)) [
  | inr bad ↦ rw bad refl
  | inl good ↦
      let d = c - b'0' in
      let small : d ≤ 9 = ground arith in
      elim (Bool-cases (ltb acc lim.last_step || (acc == lim.last_step && leb d lim.last_digit))) [
        | inl fits ↦
            let below : acc * 10 + d < 2 ^ lim.width = ground (arith, ex.greatest, ex.digit) in
            rw (good, fits, mod-eq_of_lt below) (parse_loop_lem lim s (acc * 10 + d) ex below)
        | inr over ↦
            let above : 2 ^ lim.width ≤ acc * 10 + d = ground (arith, ex.greatest, ex.digit) in
            rw (good, over) (parse_loop_overflown lim s acc ∙ too_large lim s (acc * 10 + d) above)
      ]
]
  where
    too_large :
        (lim : Limits) (s : List ℕ) (acc : ℕ)
        → 2 ^ lim.width ≤ acc
        → (if all_digits s then err overflow else err invalid) ≡ (
            if all_digits s
            then if ltb (value_from acc s) (2 ^ lim.width)
              then ok (value_from acc s)
              else err overflow
            else err invalid)
    too_large lim s acc h = ground (arith, value_from-le acc s)

-- With limits that fit the type's width, the parser answers as the reference reading does: on every
-- text, the value, the overflow and the invalid text are told apart rightly.
pub parse_unsigned-decimal :
    (lim : Limits) (s : List ℕ)
    → IsExact lim
    → parse_decimal_unsigned_integer lim s ≡ decimal (2 ^ lim.width) s
unfolding parse_decimal_unsigned_integer
parse_unsigned-decimal lim [] ex = refl
parse_unsigned-decimal lim (c ∷ s) ex = parse_loop_lem lim (c ∷ s) 0 ex (omega (arith, ex.greatest))

-- The limits that the four parsers are built with are exact, so that each answers on every text as
-- the reference reading for its width does: 64, 32, 16 and 8 bits.
pub parse_decimal_uints :
    (s : List ℕ)
    → (parse_decimal_uint64 s ≡ decimal (2 ^ 64) s)
      × (parse_decimal_uint32 s ≡ decimal (2 ^ 32) s)
      × (parse_decimal_uint16 s ≡ decimal (2 ^ 16) s)
      × (parse_decimal_uint8 s ≡ decimal (2 ^ 8) s)
unfolding parse_decimal_uint64 parse_decimal_uint32 parse_decimal_uint16 parse_decimal_uint8
parse_decimal_uints s = (
  parse_unsigned-decimal u64 s (omega arith),
  parse_unsigned-decimal u32 s (omega arith),
  parse_unsigned-decimal u16 s (omega arith),
  parse_unsigned-decimal u8 s (omega arith),
)

c_string_end : (s t : List ℕ) → all_digits s ≡ true → c_string (s ++ (0 ∷ t)) ≡ s
unfolding c_string all_digits
c_string_end [] t h = refl
c_string_end (c ∷ s) t h = ground (arith, c_string_end s t)

-- A digit string in a zero-terminated buffer is read as the four parsers read the digits alone,
-- whatever follows the zero.
pub parse_c-digits :
    (s t : List ℕ)
    → all_digits s ≡ true
    → (parse_decimal_uint64_c (s ++ (0 ∷ t)) ≡ parse_decimal_uint64 s)
      × (parse_decimal_uint32_c (s ++ (0 ∷ t)) ≡ parse_decimal_uint32 s)
      × (parse_decimal_uint16_c (s ++ (0 ∷ t)) ≡ parse_decimal_uint16 s)
      × (parse_decimal_uint8_c (s ++ (0 ∷ t)) ≡ parse_decimal_uint8 s)
unfolding parse_decimal_uint64_c parse_decimal_uint32_c parse_decimal_uint16_c parse_decimal_uint8_c
parse_c-digits s t h = (
  ap parse_decimal_uint64 (c_string_end s t h),
  ap parse_decimal_uint32 (c_string_end s t h),
  ap parse_decimal_uint16 (c_string_end s t h),
  ap parse_decimal_uint8 (c_string_end s t h),
)
