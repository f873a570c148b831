-- ===== src/Parsers/Ipv4/Sound.antt =====
-- The texts that the IPv4 parsers accept.
use pimc_toolkit.Common.{
  ℕ, ◌^◌, ◌<◌, ◌≡◌, ◌⊎◌, ◌↔◌, inl, inr, refl, sym, ◌∙◌, ap, List, [], ◌∷◌, ◌++◌, true, none, some,
  arith,
}
use pimc_toolkit.Net.Address.{IPv4Address, of_octets}
use pimc_toolkit.Parsers.Ipv4.{octet_dot, four_octets, parse_address_impl, parse_ipv4_address}
use pimc_toolkit.Parsers.Ipv4.Octets.{stops}
use pimc_toolkit.Parsers.Ipv4.Numbers.{IsNumber}
use pimc_toolkit.Parsers.Ipv4.Octet.{
  octet_dot_reads, octet_dot_cases, octet_end_reads, octet_end_cases,
}

-- The text is the dotted decimal notation of the address, followed by `rest`.
pub record IsDotted (s : List ℕ) (a : IPv4Address) (rest : List ℕ) : Type 0 where
  pub d1 : List ℕ
  pub d2 : List ℕ
  pub d3 : List ℕ
  pub d4 : List ℕ
  pub o1 : ℕ
  pub o2 : ℕ
  pub o3 : ℕ
  pub o4 : ℕ
  pub n1 : IsNumber 255 d1 o1
  pub n2 : IsNumber 255 d2 o2
  pub n3 : IsNumber 255 d3 o3
  pub n4 : IsNumber 255 d4 o4
  pub split : s ≡ d1 ++ (b'.' ∷ (d2 ++ (b'.' ∷ (d3 ++ (b'.' ∷ (d4 ++ rest))))))
  pub address : a ≡ of_octets o1 o2 o3 o4

pub dotted-lt : {s : List ℕ} {a : IPv4Address} {rest : List ℕ} → IsDotted s a rest → a < 2 ^ 32
dotted-lt r = omega (arith, r.n1.bounded, r.n2.bounded, r.n3.bounded, r.n4.bounded, r.address)

four_octets_reads :
    (s : List ℕ) (a : IPv4Address) (rest : List ℕ)
    → IsDotted s a rest
    → stops rest ≡ true
    → four_octets s ≡ some (a, rest)
unfolding four_octets
four_octets_reads s a rest r st = rw r.split (
    rw
      (
        octet_dot_reads r.o1 r.d1 (r.d2 ++ (b'.' ∷ (r.d3 ++ (b'.' ∷ (r.d4 ++ rest))))) r.n1,
        octet_dot_reads r.o2 r.d2 (r.d3 ++ (b'.' ∷ (r.d4 ++ rest))) r.n2,
        octet_dot_reads r.o3 r.d3 (r.d4 ++ rest) r.n3,
        octet_end_reads r.o4 r.d4 rest r.n4 st,
      )
      (ap (λ b. some (b, rest)) (sym r.address)))

four_octets_cases :
    (s : List ℕ)
    → (four_octets s ≡ none)
      ⊎ ((a : IPv4Address) × (rest : List ℕ) × IsDotted s a rest × (four_octets s ≡ some (a, rest)))
unfolding four_octets
four_octets_cases s = elim (octet_dot_cases s) [
  | inl stop ↦ inl (rw stop refl)
  | inr r1 ↦ elim (octet_dot_cases r1.rest) [
    | inl stop ↦ inl (rw (r1.run, stop) refl)
    | inr r2 ↦ elim (octet_dot_cases r2.rest) [
      | inl stop ↦ inl (rw (r1.run, r2.run, stop) refl)
      | inr r3 ↦ elim (octet_end_cases r3.rest) [
        | inl stop ↦ inl (rw (r1.run, r2.run, r3.run, stop) refl)
        | inr (f, e) ↦ inr (
          of_octets r1.v r2.v r3.v f.v,
          f.rest,
          record {
            d1 = r1.ds;
            d2 = r2.ds;
            d3 = r3.ds;
            d4 = f.ds;
            o1 = r1.v;
            o2 = r2.v;
            o3 = r3.v;
            o4 = f.v;
            n1 = r1.number;
            n2 = r2.number;
            n3 = r3.number;
            n4 = f.number;
            split = cc (r1.split, r2.split, r3.split, f.split);
            address = refl;
          },
          rw (r1.run, r2.run, r3.run, e) refl,
        )
      ]
    ]
  ]
]

pub address_impl_reads :
    (s : List ℕ) (a : IPv4Address) (rest : List ℕ)
    → IsDotted s a rest
    → stops rest ≡ true
    → parse_address_impl s ≡ (a, rest)
unfolding parse_address_impl
address_impl_reads s a rest r st = rw (four_octets_reads s a rest r st) refl

pub address_impl_cases :
    (s : List ℕ)
    → (parse_address_impl s ≡ (0, s))
      ⊎ ((a : IPv4Address) × (rest : List ℕ) × IsDotted s a rest
          × (parse_address_impl s ≡ (a, rest)))
unfolding parse_address_impl
address_impl_cases s = elim (four_octets_cases s) [
  | inl stop ↦ inl (rw stop refl)
  | inr (a, rest, r, e) ↦ inr (a, rest, r, rw e refl)
]

whole :
    (s : List ℕ) (a b : IPv4Address) (rest : List ℕ)
    → parse_address_impl s ≡ (b, rest)
    → parse_ipv4_address s ≡ some a
    → (rest ≡ []) × (b ≡ a)
unfolding parse_ipv4_address
whole s a b [] e h = let same : some b ≡ some a = sym (rw e refl) ∙ h in (refl, cc)
whole s a b (c ∷ rest) e h = let nothing : none ≡ some a = sym (rw e refl) ∙ h in ground arith

-- The parser answers with the address just where the text is its dotted decimal notation, which are
-- four runs of digits with dots between, each a number up to 255; or where the text is empty and the
-- address is 0.0.0.0.
pub parse_ipv4_address_iff :
    (s : List ℕ) (a : IPv4Address)
    → (parse_ipv4_address s ≡ some a) ↔ (((s ≡ []) × (a ≡ 0)) ⊎ IsDotted s a [])
parse_ipv4_address_iff s a = (
  λ h. elim (address_impl_cases s) [
    | inl failed ↦ let (e, z) = whole s a 0 s failed h in inl (e, sym z)
    | inr (b, rest, r, e) ↦ let (end, same) = whole s a b rest e h in inr (rw (sym same, sym end) r)
  ],
  λ x. elim x [
    | inl (e, z) ↦
        rw (e, z) (unfold parse_ipv4_address parse_address_impl four_octets octet_dot in refl)
    | inr r ↦ unfold parse_ipv4_address in rw (address_impl_reads s a [] r refl) refl
  ],
)
