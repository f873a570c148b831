-- ===== src/Parsers/Ipv4/Numbers.antt =====
-- Numbers within a bound: the texts that `parseBoundedUInt` reads, and where it stops.
use pimc_toolkit.Common.{
  ℕ, ◌+◌, ◌-◌, ◌*◌, ◌%◌, ◌^◌, ◌≤◌, ◌<◌, ◌≡◌, ◌⊎◌, inl, inr, refl, sym, ◌∙◌, ap, List, [], ◌∷◌, ◌++◌,
  true, false, ltb, Bool-cases, length, length-append, arith,
}
use pimc_toolkit.Parsers.Chars.{is_digit, all_digits, value_from}
use pimc_toolkit.Parsers.Ipv4.{bounded_loop, parse_bounded_uint, same_position}
use pimc_toolkit.Parsers.Ipv4.Octets.{stops, parse_bounded_uint_reads, bounded_loop_sound}

-- The text is a number up to the bound in digits, at least one of them.
pub record IsNumber (max_val : ℕ) (s : List ℕ) (v : ℕ) : Type 0 where
  pub digits : all_digits s ≡ true
  pub some_digit : 0 < length s
  pub number : v ≡ value_from 0 s
  pub bounded : v ≤ max_val

-- A number at the front of the text, up to the first character that is no digit or makes it too large.
pub record Front (max_val : ℕ) (s : List ℕ) : Type 0 where
  pub ds : List ℕ
  pub rest : List ℕ
  pub v : ℕ
  pub split : s ≡ ds ++ rest
  pub number : IsNumber max_val ds v
  pub run : parse_bounded_uint max_val s ≡ (v, rest)

pub parse_bounded_uint_cases :
    (max_val : ℕ) (s : List ℕ)
    → max_val < 2 ^ 28
    → (parse_bounded_uint max_val s ≡ (0, s)) ⊎ Front max_val s
unfolding parse_bounded_uint bounded_loop all_digits value_from
parse_bounded_uint_cases max_val [] hm = inl refl
parse_bounded_uint_cases max_val (c ∷ s) hm = elim (Bool-cases (is_digit c)) [
  | inr bad ↦ inl (rw bad refl)
  | inl good ↦
      let d = c - b'0' in
      let exact : (0 * 10 + d) % 2 ^ 32 ≡ 0 * 10 + d = ground arith in
      elim (Bool-cases (ltb max_val (0 * 10 + d))) [
        | inl big ↦ inl (rw (good, exact, big) refl)
        | inr small ↦
            let within : 0 * 10 + d ≤ max_val = ground arith in
            elim (bounded_loop_sound max_val (c ∷ s) s (0 * 10 + d) hm within) [
              | inl failed ↦ inl (rw (good, exact, small) failed)
              | inr r ↦ inr (record {
                ds = c ∷ r.ds;
                rest = (bounded_loop max_val (c ∷ s) s (0 * 10 + d) true).1;
                v = (bounded_loop max_val (c ∷ s) s (0 * 10 + d) true).0;
                split = ap (λ t. c ∷ t) r.split;
                number = record {
                  digits = rw good r.digits;
                  some_digit = omega arith;
                  number = r.number;
                  bounded = r.bounded;
                };
                run = rw (good, exact, small) refl;
              })
            ]
      ]
]

-- A number in front of a character that is no digit is read whole.
pub number_reads :
    (max_val v : ℕ) (ds rest : List ℕ)
    → max_val < 2 ^ 31
    → IsNumber max_val ds v
    → stops rest ≡ true
    → parse_bounded_uint max_val (ds ++ rest) ≡ (v, rest)
number_reads max_val v [] rest hm n st = absurd (omega (arith, n.some_digit))
number_reads max_val v (c ∷ ds) rest hm n st =
    parse_bounded_uint_reads max_val c ds rest hm n.digits (rw (sym n.number) n.bounded) st
    ∙ ap (λ w. (w, rest)) (sym n.number)

pub same_self : (s : List ℕ) → same_position s s ≡ true
same_self s = ground arith

-- Behind a number the position is another one.
pub same_behind :
    (max_val v : ℕ) (ds rest : List ℕ)
    → IsNumber max_val ds v
    → same_position rest (ds ++ rest) ≡ false
same_behind max_val v ds rest n = ground (arith, length-append ds rest, n.some_digit)
