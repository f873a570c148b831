-- ===== src/Parsers/Ipv4/Octet.antt =====
-- One octet of an address with the dot behind it, or the last octet: what `parseIPv4AddressImpl` has
-- read where it goes on.
use pimc_toolkit.Common.{
  ℕ, ◌≡◌, ◌⊎◌, inl, inr, refl, ◌∙◌, ap, List, [], ◌∷◌, ◌++◌, true, false, none, some, ◌==◌,
  Bool-cases, ==_iff, arith,
}
use pimc_toolkit.Parsers.Ipv4.{same_position, octet_dot, octet_end, behind_dot}
use pimc_toolkit.Parsers.Ipv4.Octets.{stops}
use pimc_toolkit.Parsers.Ipv4.Numbers.{
  IsNumber, Front, parse_bounded_uint_cases, number_reads, same_self, same_behind,
}

behind_dot_cases :
    (s : List ℕ) → (behind_dot s ≡ none) ⊎ ((t : List ℕ) × (s ≡ b'.' ∷ t) × (behind_dot s ≡ some t))
behind_dot_cases [] = inl refl
behind_dot_cases (c ∷ s) = elim (Bool-cases (c == b'.')) [
  | inl dot ↦ inr (s, ap (λ d. d ∷ s) ((==_iff c b'.').0 dot), rw dot refl)
  | inr other ↦ inl (rw other refl)
]

-- An octet, its dot and what stands behind.
pub record OctetDot (s : List ℕ) : Type 0 where
  pub ds : List ℕ
  pub v : ℕ
  pub rest : List ℕ
  pub number : IsNumber 255 ds v
  pub split : s ≡ ds ++ (b'.' ∷ rest)
  pub run : octet_dot s ≡ some (v, rest)

pub octet_dot_reads :
    (v : ℕ) (ds t : List ℕ) → IsNumber 255 ds v → octet_dot (ds ++ (b'.' ∷ t)) ≡ some (v, t)
unfolding octet_dot
octet_dot_reads v ds t n =
    rw (number_reads 255 v ds (b'.' ∷ t) (omega arith) n refl, same_behind 255 v ds (b'.' ∷ t) n)
      refl

pub octet_dot_cases : (s : List ℕ) → (octet_dot s ≡ none) ⊎ OctetDot s
unfolding octet_dot
octet_dot_cases s = elim (parse_bounded_uint_cases 255 s (omega arith)) [
  | inl failed ↦ inl (rw (failed, same_self s) refl)
  | inr f ↦
      let moved : same_position f.rest s ≡ false =
        ap (same_position f.rest) f.split ∙ same_behind 255 f.v f.ds f.rest f.number in
      elim (behind_dot_cases f.rest) [
        | inl no_dot ↦ inl (rw (f.run, moved, no_dot) refl)
        | inr (t, dot, e) ↦ inr (record {
          ds = f.ds;
          v = f.v;
          rest = t;
          number = f.number;
          split = f.split ∙ ap (λ r. f.ds ++ r) dot;
          run = rw (f.run, moved, e) refl;
        })
      ]
]

pub octet_end_reads :
    (v : ℕ) (ds t : List ℕ) → IsNumber 255 ds v → stops t ≡ true → octet_end (ds ++ t) ≡ some (v, t)
unfolding octet_end
octet_end_reads v ds t n st =
    rw (number_reads 255 v ds t (omega arith) n st, same_behind 255 v ds t n) refl

pub octet_end_cases :
    (s : List ℕ) → (octet_end s ≡ none) ⊎ ((f : Front 255 s) × (octet_end s ≡ some (f.v, f.rest)))
unfolding octet_end
octet_end_cases s = elim (parse_bounded_uint_cases 255 s (omega arith)) [
  | inl failed ↦ inl (rw (failed, same_self s) refl)
  | inr f ↦
      let moved : same_position f.rest s ≡ false =
        ap (same_position f.rest) f.split ∙ same_behind 255 f.v f.ds f.rest f.number in
      inr (f, rw (f.run, moved) refl)
]
