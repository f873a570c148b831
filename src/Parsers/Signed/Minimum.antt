-- ===== src/Parsers/Signed/Minimum.antt =====
-- The least value of a type, which the accumulator cannot hold as a positive number.
use pimc_toolkit.Common.{
  ℕ, ◌-◌, ◌^◌, ◌<◌, ◌≡◌, ◌∙◌, refl, List, [], ◌∷◌, ◌++◌, true, false, ap, arith, done, fault, ◌>>=◌,
}
use pimc_toolkit.Common.Int.{pos, negsuc, neg}
use pimc_toolkit.Core.Result.{ok}
use pimc_toolkit.Parsers.Chars.{is_digit, all_digits, value_from}
use pimc_toolkit.Parsers.Signed.Defs.{
  SignedLimits, signed_loop, negated, behind_sign, parse_decimal_signed_integer,
  parse_decimal_int64, parse_decimal_int32, parse_decimal_int16, parse_decimal_int8, i64, i32, i16,
  i8,
}
use pimc_toolkit.Parsers.Signed.Laws.{IsExactSigned, signed_loop_reads, computed_small_neg}

behind_minus :
    (lim : SignedLimits) (c : ℕ) (s : List ℕ)
    → parse_decimal_signed_integer lim (b'-' ∷ c ∷ s)
      ≡ (signed_loop lim lim.negative_last_digit (c ∷ s) false (pos 0) >>= negated lim)
unfolding parse_decimal_signed_integer behind_sign
behind_minus lim c s = refl

-- The rest of the run, from the digit that would complete the least value on.
at_last_step :
    (lim : SignedLimits) (c : ℕ) (ds t : List ℕ)
    → IsExactSigned lim
    → all_digits (c ∷ ds) ≡ true
    → value_from 0 (c ∷ ds) ≡ lim.last_step
    → parse_decimal_signed_integer lim (b'-' ∷ c ∷ (ds ++ t))
      ≡ (signed_loop lim lim.negative_last_digit t false (pos lim.last_step) >>= negated lim)
at_last_step lim c ds t ex h v =
    let small : value_from 0 (c ∷ ds) < 2 ^ (lim.width - 1) =
      omega (arith, v, ex.greatest, ex.digit) in
    behind_minus lim c (ds ++ t)
    ∙ ap (λ r. r >>= negated lim)
        (signed_loop_reads lim lim.negative_last_digit (c ∷ ds) t 0 ex (omega (arith, ex.least)) h
            small
          ∙ ap (λ x. signed_loop lim lim.negative_last_digit t false (pos x)) v)

-- The least value of the two narrow types is parsed rightly: a minus sign, digits of the number 12
-- as int8_t or 3276 as int16_t, and then an 8 give -128 and -32768.
pub parse_least_narrow :
    (c d : ℕ) (cs ds : List ℕ)
    → all_digits (c ∷ cs) ≡ true
    → value_from 0 (c ∷ cs) ≡ 12
    → all_digits (d ∷ ds) ≡ true
    → value_from 0 (d ∷ ds) ≡ 3276
    → (parse_decimal_int8 (b'-' ∷ c ∷ (cs ++ (b'8' ∷ []))) ≡ done (ok (negsuc 127)))
      × (parse_decimal_int16 (b'-' ∷ d ∷ (ds ++ (b'8' ∷ []))) ≡ done (ok (negsuc 32767)))
unfolding parse_decimal_int8 parse_decimal_int16 signed_loop
parse_least_narrow c d cs ds h v k u = (
  at_last_step i8 c cs (b'8' ∷ []) (omega arith) h v,
  at_last_step i16 d ds (b'8' ∷ []) (omega arith) k u,
)

after_least_8 :
    (e : ℕ)
    → is_digit e ≡ true
    → (signed_loop i8 8 (b'8' ∷ e ∷ []) false (pos 12) >>= negated i8)
      ≡ done (ok (neg (pos (e - b'0'))))
unfolding signed_loop
after_least_8 e good =
    let small : e - b'0' < 128 = ground arith in
    ground (arith, computed_small_neg i8 (e - b'0') (omega arith) small)

after_least_16 :
    (e : ℕ)
    → is_digit e ≡ true
    → (signed_loop i16 8 (b'8' ∷ e ∷ []) false (pos 3276) >>= negated i16)
      ≡ done (ok (neg (pos (e - b'0'))))
unfolding signed_loop
after_least_16 e good =
    let small : e - b'0' < 2 ^ 15 = ground arith in
    ground (arith, computed_small_neg i16 (e - b'0') (omega arith) small)

-- One more digit behind the least value of a narrow type is no overflow to the parsers: a minus
-- sign, digits of the number 12 as int8_t or 3276 as int16_t, an 8 and then any one digit are
-- accepted as the negation of that last digit. The accumulator is negative by then, and so passes
-- the test against the last step.
pub parse_past_least :
    (c d e : ℕ) (cs ds : List ℕ)
    → all_digits (c ∷ cs) ≡ true
    → value_from 0 (c ∷ cs) ≡ 12
    → all_digits (d ∷ ds) ≡ true
    → value_from 0 (d ∷ ds) ≡ 3276
    → is_digit e ≡ true
    → (parse_decimal_int8 (b'-' ∷ c ∷ (cs ++ (b'8' ∷ e ∷ []))) ≡ done (ok (neg (pos (e - b'0')))))
      × (parse_decimal_int16 (b'-' ∷ d ∷ (ds ++ (b'8' ∷ e ∷ [])))
          ≡ done (ok (neg (pos (e - b'0')))))
unfolding parse_decimal_int8 parse_decimal_int16
parse_past_least c d e cs ds h v k u good = (
  at_last_step i8 c cs (b'8' ∷ e ∷ []) (omega arith) h v ∙ after_least_8 e good,
  at_last_step i16 d ds (b'8' ∷ e ∷ []) (omega arith) k u ∙ after_least_16 e good,
)

-- In the two wide types the least value is not reached without a signed overflow, which C++ leaves
-- undefined: a minus sign, digits of the number 214748364 as int32_t or 922337203685477580 as
-- int64_t, and then an 8, whatever follows.
pub parse_least_wide :
    (c d : ℕ) (cs ds t : List ℕ)
    → all_digits (c ∷ cs) ≡ true
    → value_from 0 (c ∷ cs) ≡ 214748364
    → all_digits (d ∷ ds) ≡ true
    → value_from 0 (d ∷ ds) ≡ 922337203685477580
    → (parse_decimal_int32 (b'-' ∷ c ∷ (cs ++ (b'8' ∷ t))) ≡ fault)
      × (parse_decimal_int64 (b'-' ∷ d ∷ (ds ++ (b'8' ∷ t))) ≡ fault)
unfolding parse_decimal_int32 parse_decimal_int64 signed_loop
parse_least_wide c d cs ds t h v k u = (
  at_last_step i32 c cs (b'8' ∷ t) (omega arith) h v,
  at_last_step i64 d ds (b'8' ∷ t) (omega arith) k u,
)
