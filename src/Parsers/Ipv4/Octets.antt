-- ===== src/Parsers/Ipv4/Octets.antt =====
-- One bounded number, read from the front of a text.
use pimc_toolkit.Common.{
  ℕ, ◌+◌, ◌-◌, ◌*◌, ◌%◌, ◌^◌, ◌≤◌, ◌<◌, ◌≡◌, ◌⊎◌, inl, inr, refl, ap, List, [], ◌∷◌, ◌++◌, Bool,
  true, false, not, ltb, Bool-cases, arith,
}
use pimc_toolkit.Parsers.Chars.{is_digit, all_digits, value_from, value_from-le}
use pimc_toolkit.Parsers.Ipv4.{bounded_loop, parse_bounded_uint}

-- A text that does not go on with a digit.
abbrev pub stops : List ℕ → Bool
stops [] = true
stops (c ∷ s) = not (is_digit c)

bounded_loop_reads :
    (max_val : ℕ) (first ds rest : List ℕ) (oct : ℕ)
    → max_val < 2 ^ 31
    → all_digits ds ≡ true
    → value_from oct ds ≤ max_val
    → stops rest ≡ true
    → bounded_loop max_val first (ds ++ rest) oct true ≡ (value_from oct ds, rest)
unfolding bounded_loop all_digits value_from
bounded_loop_reads max_val first [] [] oct hm hd hv hs = refl
bounded_loop_reads max_val first [] (c ∷ rest) oct hm hd hv hs = ground arith
bounded_loop_reads max_val first (c ∷ ds) rest oct hm hd hv hs =
    let d = c - b'0' in
    let below : oct * 10 + d ≤ max_val = omega (arith, value_from-le (oct * 10 + d) ds) in
    let exact : (oct * 10 + d) % 2 ^ 32 ≡ oct * 10 + d = omega arith in
    let digits : all_digits ds ≡ true = ground arith in
    let good : is_digit c ≡ true = ground arith in
    let small : ltb max_val (oct * 10 + d) ≡ false = ground arith in
    rw (good, exact, small)
      (bounded_loop_reads max_val first ds rest (oct * 10 + d) hm digits hv hs)

-- Digits of a number within the bound are read whole, up to the first character that is no digit.
pub parse_bounded_uint_reads :
    (max_val c : ℕ) (ds rest : List ℕ)
    → max_val < 2 ^ 31
    → all_digits (c ∷ ds) ≡ true
    → value_from 0 (c ∷ ds) ≤ max_val
    → stops rest ≡ true
    → parse_bounded_uint max_val (c ∷ (ds ++ rest)) ≡ (value_from 0 (c ∷ ds), rest)
unfolding parse_bounded_uint all_digits value_from
parse_bounded_uint_reads max_val c ds rest hm hd hv hs =
    let d = c - b'0' in
    let below : 0 * 10 + d ≤ max_val = omega (arith, value_from-le (0 * 10 + d) ds) in
    let exact : (0 * 10 + d) % 2 ^ 32 ≡ 0 * 10 + d = omega arith in
    let digits : all_digits ds ≡ true = ground arith in
    let good : is_digit c ≡ true = ground arith in
    let small : ltb max_val (0 * 10 + d) ≡ false = ground arith in
    rw (good, exact, small)
      (bounded_loop_reads max_val (c ∷ (ds ++ rest)) ds rest (0 * 10 + d) hm digits hv hs)

-- What a run that did not fail has read.
pub record Reads (max_val oct : ℕ) (s : List ℕ) (v : ℕ) (rest : List ℕ) : Type 0 where
  pub ds : List ℕ
  pub split : s ≡ ds ++ rest
  pub digits : all_digits ds ≡ true
  pub number : v ≡ value_from oct ds
  pub bounded : v ≤ max_val

extend :
    {max_val oct c v : ℕ} {s rest : List ℕ}
    → is_digit c ≡ true
    → Reads max_val (oct * 10 + (c - b'0')) s v rest
    → Reads max_val oct (c ∷ s) v rest
unfolding all_digits value_from
extend {c = c} good r = record {
  ds = c ∷ r.ds;
  split = ap (λ t. c ∷ t) r.split;
  digits = rw good r.digits;
  number = r.number;
  bounded = r.bounded;
}

-- A run either fails with nothing read or has read digits of a number within the bound.
pub bounded_loop_sound :
    (max_val : ℕ) (first s : List ℕ) (oct : ℕ)
    → max_val < 2 ^ 28
    → oct ≤ max_val
    → (bounded_loop max_val first s oct true ≡ (0, first))
      ⊎ Reads max_val oct s
          (bounded_loop max_val first s oct true).0
          (bounded_loop max_val first s oct true).1
unfolding bounded_loop all_digits value_from
bounded_loop_sound max_val first [] oct hm h =
    inr (record { ds = []; split = refl; digits = refl; number = refl; bounded = h })
bounded_loop_sound max_val first (c ∷ s) oct hm h = elim (Bool-cases (is_digit c)) [
  | inr bad ↦
      rw bad (inr (record { ds = []; split = refl; digits = refl; number = refl; bounded = h }))
  | inl good ↦
      let digit : c - b'0' ≤ 9 = ground arith in
      let exact : (oct * 10 + (c - b'0')) % 2 ^ 32 ≡ oct * 10 + (c - b'0') = omega arith in
      elim (Bool-cases (ltb max_val (oct * 10 + (c - b'0')))) [
        | inl big ↦ rw (good, exact, big) (inl refl)
        | inr small ↦
            let within : oct * 10 + (c - b'0') ≤ max_val = ground arith in
            rw (good, exact, small)
              (elim (bounded_loop_sound max_val first s (oct * 10 + (c - b'0')) hm within) [
                | inl failed ↦ inl failed
                | inr r ↦ inr (extend good r)
              ])
      ]
]
