-- ===== src/Parsers/Ipv4/Prefixes.antt =====
-- The texts that `parseIPv4Prefix` accepts.
use pimc_toolkit.Common.{
  ℕ, ◌^◌, ◌≡◌, ◌⊎◌, inl, inr, refl, sym, ◌∙◌, ap, List, [], ◌∷◌, ◌++◌, Bool, true, false, not, ◌||◌,
  ◌-◌, ◌/◌, if◌then◌else◌, Option, none, some, ◌==◌, Bool-cases, ==_iff, arith, Run, done, length,
  length-append,
}
use pimc_toolkit.Net.Address.{IPv4Address}
use pimc_toolkit.Net.Prefix.{IPv4Prefix, IsCanonical, make, make_cases}
use pimc_toolkit.Parsers.Ipv4.{
  parse_bounded_uint, same_position, is_empty, parse_prefix_length_impl, parse_ipv4_prefix, made,
}
use pimc_toolkit.Parsers.Ipv4.Numbers.{
  IsNumber, parse_bounded_uint_cases, number_reads, same_self, same_behind,
}
use pimc_toolkit.Parsers.Ipv4.Sound.{IsDotted, dotted-lt, address_impl_reads, address_impl_cases}

append-nil : (s : List ℕ) → s ++ [] ≡ s
append-nil [] = refl
append-nil (c ∷ s) = ap (λ t. c ∷ t) (append-nil s)

prefix_length_reads :
    (p : ℕ) (ds : List ℕ) → IsNumber 32 ds p → parse_prefix_length_impl (b'/' ∷ ds) ≡ (p, [])
unfolding parse_prefix_length_impl
prefix_length_reads p ds n =
    let reads : parse_bounded_uint 32 ds ≡ (p, []) =
      ap (parse_bounded_uint 32) (sym (append-nil ds))
      ∙ number_reads 32 p ds [] (omega arith) n refl in
    let moved : same_position [] ds ≡ false = ground (arith, n.some_digit) in rw (reads, moved) refl

empty_cases : (s : List ℕ) → (s ≡ []) ⊎ (is_empty s ≡ false)
empty_cases [] = inl refl
empty_cases (c ∷ s) = inr refl

-- A text is a slash and a length, which is all of it; or the parser stays where it was or stops early.
prefix_length_cases :
    (s : List ℕ)
    → ((same_position (parse_prefix_length_impl s).1 s ≡ true)
        ⊎ (is_empty (parse_prefix_length_impl s).1 ≡ false))
      ⊎ ((p : ℕ) × (ds : List ℕ) × (s ≡ b'/' ∷ ds) × IsNumber 32 ds p)
unfolding parse_prefix_length_impl
prefix_length_cases [] = inl (inl refl)
prefix_length_cases (c ∷ s) = elim (Bool-cases (c == b'/')) [
  | inr other ↦ inl (inl (rw other (same_self (c ∷ s))))
  | inl slash ↦ elim (parse_bounded_uint_cases 32 s (omega arith)) [
    | inl failed ↦ inl (inl (rw (slash, failed, same_self s) (same_self (c ∷ s))))
    | inr f ↦
        let moved : same_position f.rest s ≡ false =
          ap (same_position f.rest) f.split ∙ same_behind 32 f.v f.ds f.rest f.number in
        elim (empty_cases f.rest) [
          | inl done_ ↦
              let all : s ≡ f.ds = f.split ∙ ap (λ r. f.ds ++ r) done_ ∙ append-nil f.ds in
              inr (f.v, s, ap (λ d. d ∷ s) ((==_iff c b'/').0 slash), rw all f.number)
          | inr more ↦ inl (inr (rw (slash, f.run, moved) more))
        ]
  ]
]

-- A text with a prefix in it: a dotted address, a slash, and a number up to 32.
pub record IsPrefixText (s : List ℕ) (a : IPv4Address) (p : ℕ) : Type 0 where
  pub ds : List ℕ
  pub dotted : IsDotted s a (b'/' ∷ ds)
  pub length_of : IsNumber 32 ds p

-- Behind an address the position is another one.
behind_address :
    (s : List ℕ) (a : IPv4Address) (rest : List ℕ)
    → IsDotted s a rest
    → same_position rest s ≡ false
behind_address s a rest r =
    let s3 = r.d4 ++ rest in
    let s2 = r.d3 ++ (b'.' ∷ s3) in
    let s1 = r.d2 ++ (b'.' ∷ s2) in
    ground (
      arith,
      ap length r.split,
      length-append r.d1 (b'.' ∷ s1),
      length-append r.d2 (b'.' ∷ s2),
      length-append r.d3 (b'.' ∷ s3),
      length-append r.d4 rest,
    )

prefix_reads :
    (s : List ℕ) (a : IPv4Address) (p : ℕ) (x : IPv4Prefix)
    → IsPrefixText s a p
    → make a p ≡ done x
    → parse_ipv4_prefix s ≡ done (some x)
unfolding parse_ipv4_prefix
prefix_reads s a p x t m =
    let behind : same_position (b'/' ∷ t.ds) s ≡ false =
      behind_address s a (b'/' ∷ t.ds) t.dotted in
    let moved : same_position [] (b'/' ∷ t.ds) ≡ false = ground arith in
    rw
      (
        address_impl_reads s a (b'/' ∷ t.ds) t.dotted refl,
        prefix_length_reads p t.ds t.length_of,
        behind,
        moved,
        m,
      )
      refl

-- What the prefix is that a text with a prefix in it stands for.
pub record IsPrefixOf (a : IPv4Address) (p : ℕ) (x : IPv4Prefix) : Type 0 where
  pub canonical : IsCanonical x
  pub same_length : x.plen ≡ p
  pub same_bits : x.addr / 2 ^ (32 - p) ≡ a / 2 ^ (32 - p)

prefix_made :
    (s : List ℕ) (a : IPv4Address) (p : ℕ)
    → IsPrefixText s a p
    → (x : IPv4Prefix) × IsPrefixOf a p x × (parse_ipv4_prefix s ≡ done (some x))
prefix_made s a p t = elim (make_cases a p (dotted-lt t.dotted)) [
  | inl (x, _, e, c, l, b) ↦
      (x, record { canonical = c; same_length = l; same_bits = b }, prefix_reads s a p x t e)
  | inr (big, _) ↦ absurd (omega (arith, t.length_of.bounded))
]

prefix_found :
    (s : List ℕ)
    → (parse_ipv4_prefix s ≡ done none) ⊎ ((a : IPv4Address) × (p : ℕ) × IsPrefixText s a p)
unfolding parse_ipv4_prefix
prefix_found s = elim (address_impl_cases s) [
  | inl failed ↦ inl (rw (failed, same_self s) refl)
  | inr (a, rest, r, e) ↦ elim (prefix_length_cases rest) [
    | inr (p, ds, slash, n) ↦
        inr (a, p, record { ds = ds; dotted = rw (sym slash) r; length_of = n })
    | inl stopped ↦ inl (rw e (refused (same_position rest s || is_empty rest) a rest stopped))
  ]
]
  where
    refused :
        (b : Bool) (a : IPv4Address) (rest : List ℕ)
        → ((same_position (parse_prefix_length_impl rest).1 rest ≡ true)
            ⊎ (is_empty (parse_prefix_length_impl rest).1 ≡ false))
        → (if b
            then done none
            else if same_position (parse_prefix_length_impl rest).1 rest
                || not (is_empty (parse_prefix_length_impl rest).1)
            then done none
            else made (make a (parse_prefix_length_impl rest).0))
          ≡ done none
    refused true a rest h = refl
    refused false a rest (inl h) = rw h refl
    refused false a rest (inr h) =
        elim (Bool-cases (same_position (parse_prefix_length_impl rest).1 rest)) [
          | inl k ↦ rw k refl
          | inr k ↦ rw (k, h) refl
        ]

-- The parser never throws. Where the text is a dotted address, a slash and a number up to 32, it
-- answers with a canonical prefix of that length that agrees with the address in that many bits; where
-- it is no such text, it answers with no prefix.
pub parse_ipv4_prefix_cases :
    (s : List ℕ)
    → ((a : IPv4Address) × (p : ℕ) × (x : IPv4Prefix) × IsPrefixText s a p
        × IsPrefixOf a p x
        × (parse_ipv4_prefix s ≡ done (some x)))
      ⊎ (((a : IPv4Address) (p : ℕ) → ¬ IsPrefixText s a p) × (parse_ipv4_prefix s ≡ done none))
parse_ipv4_prefix_cases s = elim (prefix_found s) [
  | inr (a, p, t) ↦ let (x, o, e) = prefix_made s a p t in inl (a, p, x, t, o, e)
  | inl failed ↦ inr (
    λ a p t.
        let (x, _, e) = prefix_made s a p t in
        let clash : ◌≡◌ {A = Run (Option IPv4Prefix)} (done none) (done (some x)) =
          sym failed ∙ e in
        ground arith,
    failed,
  )
]
