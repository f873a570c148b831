-- ===== src/Net/Prefix.antt =====
-- lib/pimc/net/IPv4Prefix.hpp
use Prim.Native.Nat.{bit_and}
use native.Mathlib.Nat.{div-div-eq-div-mul, mul-div_cancel}
use native.Mathlib.Decide.{dec_le}
use pimc_toolkit.Common.{
  ◌⊎◌, ℕ, zero, suc, ◌+◌, ◌-◌, ◌*◌, ◌/◌, ◌^◌, ◌≤◌, ◌<◌, ◌≡◌, ◌↔◌, refl, sym, ◌∙◌, ap, Bool, true,
  false, not, ◌&&◌, ◌||◌, ltb, leb, ◌==◌, if◌then◌else◌, ==_iff, inl, inr, Run, done, raised,
  invalid_argument, ◌>>=◌, arith,
}
use pimc_toolkit.Net.Address.{
  IPv4Address, of_octets, mask_value, mask_of_length, and_address, lt_address, gt_address,
  eq_address, ne_address, charlen,
}
use pimc_toolkit.Net.Bits.{bit_and_mask, pow_pos, pow_add}
use pimc_toolkit.Net.Mask.{mask_value_lem, pow_split}

pub record IPv4Prefix : Type 0 where
  pub addr : IPv4Address
  pub plen : ℕ

unfoldable pub make : IPv4Address → ℕ → Run IPv4Prefix
unfolding mask_of_length
make addr plen = do
  mask ← mask_of_length plen
  done (record { addr = and_address addr mask; plen = plen })

abbrev pub default_prefix : IPv4Prefix
default_prefix = record { addr = of_octets 0 0 0 0; plen = 0 }

abbrev pub loopback_prefix : IPv4Prefix
loopback_prefix = record { addr = of_octets 127 0 0 0; plen = 8 }

abbrev pub multicast_prefix : IPv4Prefix
multicast_prefix = record { addr = of_octets 224 0 0 0; plen = 4 }

abbrev pub zero_prefix : IPv4Prefix
zero_prefix = record { addr = of_octets 0 0 0 0; plen = 8 }

unfoldable pub lt_prefix : IPv4Prefix → IPv4Prefix → Bool
lt_prefix x y =
    if lt_address x.addr y.addr
    then true
    else if gt_address x.addr y.addr
    then false
    else ltb x.plen y.plen

unfoldable pub le_prefix : IPv4Prefix → IPv4Prefix → Bool
le_prefix x y =
    if lt_address x.addr y.addr
    then true
    else if gt_address x.addr y.addr
    then false
    else leb x.plen y.plen

unfoldable pub gt_prefix : IPv4Prefix → IPv4Prefix → Bool
gt_prefix x y =
    if gt_address x.addr y.addr
    then true
    else if lt_address x.addr y.addr
    then false
    else ltb y.plen x.plen

unfoldable pub ge_prefix : IPv4Prefix → IPv4Prefix → Bool
ge_prefix x y =
    if gt_address x.addr y.addr
    then true
    else if lt_address x.addr y.addr
    then false
    else leb y.plen x.plen

unfoldable pub eq_prefix : IPv4Prefix → IPv4Prefix → Bool
eq_prefix x y = eq_address x.addr y.addr && x.plen == y.plen

unfoldable pub ne_prefix : IPv4Prefix → IPv4Prefix → Bool
ne_prefix x y = ne_address x.addr y.addr || not (x.plen == y.plen)

unfoldable pub contains : IPv4Prefix → IPv4Address → Bool
unfolding mask_value
contains x a = eq_address x.addr (and_address a (mask_value x.plen))

unfoldable pub contains_prefix : IPv4Prefix → IPv4Prefix → Bool
unfolding contains
contains_prefix x y = if leb y.plen x.plen then false else contains x y.addr

unfoldable pub prefix_charlen : IPv4Prefix → ℕ
unfolding charlen
prefix_charlen x = charlen x.addr + 1 + (if ltb x.plen 10 then 1 else 2)

-- The six operators agree with one another on all prefixes: less is greater seen from the other
-- side, less or equal is the disjunction of less and equal, and the other three are negations of
-- less, equal, and less or equal.
pub order_lem :
    (x y : IPv4Prefix)
    → (lt_prefix x y ≡ gt_prefix y x)
      × (le_prefix x y ≡ (lt_prefix x y || eq_prefix x y))
      × (ge_prefix x y ≡ not (lt_prefix x y))
      × (ne_prefix x y ≡ not (eq_prefix x y))
      × (gt_prefix x y ≡ not (le_prefix x y))
unfolding lt_prefix le_prefix gt_prefix ge_prefix eq_prefix ne_prefix
order_lem x y = (ground arith, ground arith, ground arith, ground arith, ground arith)

-- The operator < on prefixes is transitive.
pub lt_prefix_trans :
    (x y z : IPv4Prefix) → lt_prefix x y ≡ true → lt_prefix y z ≡ true → lt_prefix x z ≡ true
unfolding lt_prefix
lt_prefix_trans x y z h k = ground arith

pred_times : (x y : ℕ) → 0 < x → (x - 1) * y + y ≡ x * y
pred_times zero y h = absurd (omega arith)
pred_times (suc x) y h = let e : suc x - 1 ≡ x = omega arith in rw e (omega arith)

mask_product : (p : ℕ) → p ≤ 32 → mask_value p ≡ (2 ^ p - 1) * 2 ^ (32 - p)
mask_product p h =
    omega (arith, mask_value_lem p h, pow_split p h, pred_times (2 ^ p) (2 ^ (32 - p)) (pow_pos p))

-- The bits of an address that the mask keeps.
pub masked :
    (a p : ℕ) → a < 2 ^ 32 → p ≤ 32 → bit_and a (mask_value p) ≡ a / 2 ^ (32 - p) * 2 ^ (32 - p)
masked a p lt h = rw (mask_product p h) (bit_and_mask (32 - p) p a (omega (arith, pow_split p h)))

make_lem :
    (a p : ℕ) → p ≤ 32 → make a p ≡ done (record { addr = bit_and a (mask_value p); plen = p })
unfolding make
make_lem a p h = ground arith

-- The address is one of 32 bits whose bits behind the length are clear, and the length is in range.
pub record IsCanonical (x : IPv4Prefix) : Type 0 where
  pub length_in_range : x.plen ≤ 32
  pub cleared : x.addr ≡ x.addr / 2 ^ (32 - x.plen) * 2 ^ (32 - x.plen)

times_div : (n k : ℕ) → 0 < k → n * k / k ≡ n
times_div n k h = mul-div_cancel n h

-- Of every address of 32 bits and length up to 32 a prefix is made that is canonical, has that
-- length, and agrees with the address in that many bits; with a greater length an exception is
-- thrown.
pub make_cases :
    (a p : ℕ)
    → a < 2 ^ 32
    → ((x : IPv4Prefix) × (p ≤ 32)
        × (make a p ≡ done x)
        × IsCanonical x
        × (x.plen ≡ p)
        × (x.addr / 2 ^ (32 - p) ≡ a / 2 ^ (32 - p)))
      ⊎ ((32 < p) × (make a p ≡ raised invalid_argument))
make_cases a p lt = elim (dec_le p 32) [
  | yes le ↦
      let m = masked a p lt le in
      let keeps : bit_and a (mask_value p) / 2 ^ (32 - p) ≡ a / 2 ^ (32 - p) =
        rw m (times_div (a / 2 ^ (32 - p)) (2 ^ (32 - p)) (pow_pos (32 - p))) in
      inl (
        record { addr = bit_and a (mask_value p); plen = p },
        le,
        make_lem a p le,
        record { length_in_range = le; cleared = rw keeps m },
        refl,
        keeps,
      )
  | no gt ↦ inr (omega arith, refusal a p (omega arith))
]
  where
    refusal : (a p : ℕ) → 32 < p → make a p ≡ raised invalid_argument
    refusal a p h = unfold make in ground arith

-- A canonical prefix contains just the addresses of 32 bits that agree with its own in the bits of
-- its length.
pub contains_iff :
    (x : IPv4Prefix) (a : IPv4Address)
    → IsCanonical x
    → a < 2 ^ 32
    → (contains x a ≡ true) ↔ (x.addr / 2 ^ (32 - x.plen) ≡ a / 2 ^ (32 - x.plen))
unfolding contains
contains_iff x a c lt =
    let k = 2 ^ (32 - x.plen) in
    let m = masked a x.plen lt c.length_in_range in
    (
      λ h.
          let same : x.addr ≡ a / k * k = (==_iff _ _).0 h ∙ m in
          ap (λ t. t / k) same ∙ times_div (a / k) k (pow_pos (32 - x.plen)),
      λ e. (==_iff _ _).1 (c.cleared ∙ ap (λ t. t * k) e ∙ sym m),
    )

coarser : (a p q : ℕ) → p ≤ q → q ≤ 32 → a / 2 ^ (32 - p) ≡ a / 2 ^ (32 - q) / 2 ^ (q - p)
coarser a p q h k =
    ap (λ t. a / t) (sym (pow_add (32 - q) (q - p) (32 - p) (omega arith)))
    ∙ sym (div-div-eq-div-mul a (2 ^ (32 - q)) (2 ^ (q - p)))

-- Where a canonical prefix contains another canonical one, the other is strictly longer, and
-- whatever address of 32 bits the other contains the first contains too.
pub contains_prefix_subset :
    (x y : IPv4Prefix) (a : IPv4Address)
    → IsCanonical x
    → IsCanonical y
    → y.addr < 2 ^ 32
    → a < 2 ^ 32
    → contains_prefix x y ≡ true
    → contains y a ≡ true
    → (x.plen < y.plen) × (contains x a ≡ true)
unfolding contains_prefix
contains_prefix_subset x y a cx cy ly la h k =
    let longer : x.plen < y.plen = ground arith in
    let inside : contains x y.addr ≡ true = ground arith in
    let first = (contains_iff x y.addr cx ly).0 inside in
    let second = (contains_iff y a cy la).0 k in
    (
      longer,
      (contains_iff x a cx la).1 (
          first
          ∙ coarser y.addr x.plen y.plen (omega (arith, longer)) cy.length_in_range
          ∙ ap (λ t. t / 2 ^ (y.plen - x.plen)) second
          ∙ sym (coarser a x.plen y.plen (omega (arith, longer)) cy.length_in_range)),
    )
