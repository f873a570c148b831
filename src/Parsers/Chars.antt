-- ===== src/Parsers/Chars.antt =====
-- Characters and C strings, for lib/pimc/parsers and lib/pimc/text/CString.hpp, and the reference
-- reading of a string of decimal digits.
use pimc_toolkit.Common.{
  ℕ, ◌+◌, ◌-◌, ◌*◌, ◌≤◌, ◌≡◌, refl, List, [], ◌∷◌, ◌++◌, Bool, true, ◌&&◌, leb, ◌==◌, if◌then◌else◌,
  arith,
}

-- `std::isdigit` on an unsigned char.
abbrev pub is_digit : ℕ → Bool
is_digit c = leb b'0' c && leb c b'9'

-- The characters before the terminating zero, which is where `cssentinel` ends an iteration.
unfoldable pub c_string : List ℕ → List ℕ
c_string [] = []
c_string (c ∷ s) = if c == 0 then [] else c ∷ c_string s

unfoldable pub all_digits : List ℕ → Bool
all_digits [] = true
all_digits (c ∷ s) = is_digit c && all_digits s

-- The number that the digits `s` stand for behind digits that stand for `acc`.
unfoldable pub value_from : ℕ → List ℕ → ℕ
value_from acc [] = acc
value_from acc (c ∷ s) = value_from (acc * 10 + (c - b'0')) s

pub value_from-le : (acc : ℕ) (s : List ℕ) → acc ≤ value_from acc s
unfolding value_from
value_from-le acc [] = omega arith
value_from-le acc (c ∷ s) = omega (arith, value_from-le (acc * 10 + (c - b'0')) s)

pub value_from-append :
    (acc : ℕ) (s t : List ℕ) → value_from acc (s ++ t) ≡ value_from (value_from acc s) t
unfolding value_from
value_from-append acc [] t = refl
value_from-append acc (c ∷ s) t = value_from-append (acc * 10 + (c - b'0')) s t
