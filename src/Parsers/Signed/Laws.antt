-- ===== src/Parsers/Signed/Laws.antt =====
-- The signed parsers on texts whose magnitude a positive value of the type can have, and on all
-- texts without a minus sign.
use pimc_toolkit.Common.{
  ℕ, zero, suc, ◌+◌, ◌-◌, ◌*◌, ◌%◌, ◌^◌, ◌≤◌, ◌<◌, ◌≡◌, ◌∙◌, refl, List, [], ◌∷◌, ◌++◌, Bool, true,
  false, ◌&&◌, ◌||◌, ltb, leb, ◌==◌, if◌then◌else◌, arith, Bool-cases, inl, inr, done, append-nil,
  ap, sym,
}
use native.Mathlib.Nat.{mod-eq_of_lt}
use pimc_toolkit.Common.Int.{ℤ, pos, neg}
use pimc_toolkit.Core.Result.{Result, ok, err}
use pimc_toolkit.Parsers.Chars.{is_digit, all_digits, value_from, value_from-le}
use pimc_toolkit.Parsers.Unsigned.{NumberParseError, invalid, overflow}
use pimc_toolkit.Parsers.Signed.Defs.{
  SignedLimits, promoted, computed, signed_loop, behind_sign, parse_decimal_signed_integer,
  parse_decimal_int64, parse_decimal_int32, parse_decimal_int16, parse_decimal_int8, i64, i32, i16,
  i8,
}

-- The last step and digits are those of the greatest and the least value of the type.
pub record IsExactSigned (lim : SignedLimits) : Type 0 where
  pub greatest : lim.last_step * 10 + lim.positive_last_digit + 1 ≡ 2 ^ (lim.width - 1)
  pub digit : lim.positive_last_digit < 9
  pub least : lim.negative_last_digit ≡ lim.positive_last_digit + 1
  pub half : 2 ^ lim.width ≡ 2 * 2 ^ (lim.width - 1)
  pub fits : 2 ^ (lim.width - 1) ≤ 2 ^ (promoted lim.width - 1)

computed_small :
    (lim : SignedLimits) (n : ℕ)
    → IsExactSigned lim
    → n < 2 ^ (lim.width - 1)
    → computed lim.width (pos n) ≡ done (pos n)
computed_small lim n ex h =
    let whole : n < 2 ^ lim.width = omega (arith, ex.half) in
    let same : n % 2 ^ lim.width ≡ n = mod-eq_of_lt whole in ground (arith, ex.fits, same)

pub computed_small_neg :
    (lim : SignedLimits) (n : ℕ)
    → IsExactSigned lim
    → n < 2 ^ (lim.width - 1)
    → computed lim.width (neg (pos n)) ≡ done (neg (pos n))
computed_small_neg lim zero ex h = computed_small lim 0 ex h
computed_small_neg lim (suc n) ex h =
    let whole : n < 2 ^ lim.width = omega (arith, ex.half) in
    let same : n % 2 ^ lim.width ≡ n = mod-eq_of_lt whole in ground (arith, ex.fits, ex.half, same)

-- Digits are read one by one while the number stays in the positive range.
pub signed_loop_reads :
    (lim : SignedLimits) (last_digit : ℕ) (ds t : List ℕ) (acc : ℕ)
    → IsExactSigned lim
    → lim.positive_last_digit ≤ last_digit
    → all_digits ds ≡ true
    → value_from acc ds < 2 ^ (lim.width - 1)
    → signed_loop lim last_digit (ds ++ t) false (pos acc)
      ≡ signed_loop lim last_digit t false (pos (value_from acc ds))
unfolding signed_loop all_digits value_from
signed_loop_reads lim ld [] t acc ex hd h m = refl
signed_loop_reads lim ld (c ∷ ds) t acc ex hd h m =
    let d = c - b'0' in
    let good : is_digit c ≡ true = ground arith in
    let rest : all_digits ds ≡ true = ground arith in
    let below : acc * 10 + d < 2 ^ (lim.width - 1) =
      omega (arith, value_from-le (acc * 10 + d) ds) in
    let test : (ltb acc lim.last_step
          || ((leb acc lim.last_step && leb lim.last_step acc) && leb d ld))
        ≡ true =
      ground (arith, ex.greatest, ex.digit) in
    rw (good, test, computed_small lim (acc * 10 + d) ex below)
      (signed_loop_reads lim ld ds t (acc * 10 + d) ex hd rest m)

signed_loop_overflown :
    (lim : SignedLimits) (ld : ℕ) (s : List ℕ) (acc : ℤ)
    → signed_loop lim ld s true acc ≡ done (if all_digits s then err overflow else err invalid)
unfolding signed_loop all_digits
signed_loop_overflown lim ld [] acc = refl
signed_loop_overflown lim ld (c ∷ s) acc = ground (arith, signed_loop_overflown lim ld s acc)

-- What a parser of the numbers from 0 up to `bound` is to answer on what stands behind the sign.
abbrev pub positive_decimal : ℕ → ℕ → List ℕ → Result ℤ NumberParseError
positive_decimal bound acc s =
    if all_digits s
    then if ltb (value_from acc s) bound then ok (pos (value_from acc s)) else err overflow
    else err invalid

signed_loop_positive :
    (lim : SignedLimits) (s : List ℕ) (acc : ℕ)
    → IsExactSigned lim
    → acc < 2 ^ (lim.width - 1)
    → signed_loop lim lim.positive_last_digit s false (pos acc)
      ≡ done (positive_decimal (2 ^ (lim.width - 1)) acc s)
unfolding signed_loop all_digits value_from
signed_loop_positive lim [] acc ex h = ground arith
signed_loop_positive lim (c ∷ s) acc ex h = elim (Bool-cases (is_digit c)) [
  | inr bad ↦ rw bad refl
  | inl good ↦
      let d = c - b'0' in
      let small : d ≤ 9 = ground arith in
      elim (Bool-cases (
        ltb acc lim.last_step
        || ((leb acc lim.last_step && leb lim.last_step acc) && leb d lim.positive_last_digit))) [
          | inl fits ↦
              let below : acc * 10 + d < 2 ^ (lim.width - 1) =
                ground (arith, ex.greatest, ex.digit) in
              rw (good, fits, computed_small lim (acc * 10 + d) ex below)
                (signed_loop_positive lim s (acc * 10 + d) ex below)
          | inr over ↦
              let above : 2 ^ (lim.width - 1) ≤ acc * 10 + d =
                ground (arith, ex.greatest, ex.digit) in
              rw (good, over)
                (signed_loop_overflown lim lim.positive_last_digit s (pos acc)
                  ∙ ap done (too_large lim s (acc * 10 + d) above))
        ]
]
  where
    too_large :
        (lim : SignedLimits) (s : List ℕ) (acc : ℕ)
        → 2 ^ (lim.width - 1) ≤ acc
        → (if all_digits s then err overflow else err invalid)
          ≡ positive_decimal (2 ^ (lim.width - 1)) acc s
    too_large lim s acc h = ground (arith, value_from-le acc s)

-- Behind a plus sign or none.
abbrev pub unsigned_text : ℕ → List ℕ → Result ℤ NumberParseError
unsigned_text bound [] = err invalid
unsigned_text bound (c ∷ s) = positive_decimal bound 0 (c ∷ s)

abbrev pub plain_text : ℕ → List ℕ → Result ℤ NumberParseError
plain_text bound [] = err invalid
plain_text bound (c ∷ s) = if c == b'+' then unsigned_text bound s else unsigned_text bound (c ∷ s)

abbrev pub has_minus : List ℕ → Bool
has_minus [] = false
has_minus (c ∷ s) = c == b'-'

behind_plus :
    (lim : SignedLimits) (s : List ℕ)
    → IsExactSigned lim
    → behind_sign lim true s ≡ done (unsigned_text (2 ^ (lim.width - 1)) s)
unfolding behind_sign
behind_plus lim [] ex = refl
behind_plus lim (c ∷ s) ex = signed_loop_positive lim (c ∷ s) 0 ex (omega (arith, ex.greatest))

parse_signed_plain :
    (lim : SignedLimits) (s : List ℕ)
    → IsExactSigned lim
    → has_minus s ≡ false
    → parse_decimal_signed_integer lim s ≡ done (plain_text (2 ^ (lim.width - 1)) s)
unfolding parse_decimal_signed_integer
parse_signed_plain lim [] ex h = refl
parse_signed_plain lim (c ∷ s) ex h = elim (Bool-cases (c == b'+')) [
  | inl plus ↦ rw (h, plus) (behind_plus lim s ex)
  | inr none_ ↦ rw (h, none_) (behind_plus lim (c ∷ s) ex)
]

-- On every text that does not begin with a minus sign the four parsers answer as the reference
-- reading does: the value, the overflow from 2 ^ (width - 1) on and the invalid text are told apart
-- rightly, and no arithmetic is undefined.
pub parse_decimal_ints_plain :
    (s : List ℕ)
    → has_minus s ≡ false
    → (parse_decimal_int64 s ≡ done (plain_text (2 ^ 63) s))
      × (parse_decimal_int32 s ≡ done (plain_text (2 ^ 31) s))
      × (parse_decimal_int16 s ≡ done (plain_text (2 ^ 15) s))
      × (parse_decimal_int8 s ≡ done (plain_text (2 ^ 7) s))
unfolding parse_decimal_int64 parse_decimal_int32 parse_decimal_int16 parse_decimal_int8
parse_decimal_ints_plain s h = (
  parse_signed_plain i64 s (omega arith) h,
  parse_signed_plain i32 s (omega arith) h,
  parse_signed_plain i16 s (omega arith) h,
  parse_signed_plain i8 s (omega arith) h,
)

-- A number in the positive range is read to its end.
pub signed_loop_all :
    (lim : SignedLimits) (last_digit : ℕ) (ds : List ℕ)
    → IsExactSigned lim
    → lim.positive_last_digit ≤ last_digit
    → all_digits ds ≡ true
    → value_from 0 ds < 2 ^ (lim.width - 1)
    → signed_loop lim last_digit ds false (pos 0) ≡ done (ok (pos (value_from 0 ds)))
signed_loop_all lim ld ds ex hd h m =
    ap (λ l. signed_loop lim ld l false (pos 0)) (sym (append-nil ds))
    ∙ signed_loop_reads lim ld ds [] 0 ex hd h m
    ∙ (unfold signed_loop in refl)

-- With limits that fit the type, a minus sign before digits whose number lies below half the range
-- of the type gives the negation of that number.
pub parse_signed_negative :
    (lim : SignedLimits) (c : ℕ) (ds : List ℕ)
    → IsExactSigned lim
    → all_digits (c ∷ ds) ≡ true
    → value_from 0 (c ∷ ds) < 2 ^ (lim.width - 1)
    → parse_decimal_signed_integer lim (b'-' ∷ c ∷ ds)
      ≡ done (ok (neg (pos (value_from 0 (c ∷ ds)))))
unfolding parse_decimal_signed_integer behind_sign
parse_signed_negative lim c ds ex h m =
    rw (signed_loop_all lim lim.negative_last_digit (c ∷ ds) ex (omega (arith, ex.least)) h m)
      (rw (computed_small_neg lim (value_from 0 (c ∷ ds)) ex m) refl)
