-- ===== src/Net/Mask.antt =====
-- Subnet masks: `maskValue`, `toMask` in both directions and `isMask` of
-- lib/pimc/net/IPv4Address.hpp.
use Prim.Native.Nat.{bit_and}
use native.Mathlib.Nat.{pow-le-pow_right}
use native.Mathlib.Decide.{dec_le}
use pimc_toolkit.Common.{
  ℕ, zero, suc, ◌+◌, ◌-◌, ◌*◌, ◌%◌, ◌^◌, ◌≤◌, ◌<◌, ◌≡◌, ◌≢◌, ◌⊎◌, inl, inr, refl, ◌∙◌, ap, Bool,
  true, false, ◌&&◌, ◌==◌, ==_iff, Bool-cases, sub32, Run, done, raised, logic_error, stuck, fault,
  arith,
}
use pimc_toolkit.Net.Address.{
  IPv4Address, mask_value, is_mask, to_mask, local_broadcast_address_value,
}
use pimc_toolkit.Net.Bits.{power_of_two}

-- A test that passes on every number up to `n`, by running it.
passes : ℕ → (ℕ → Bool) → Bool
passes zero test = test 0
passes (suc n) test = test (suc n) && passes n test

passes_at : (n : ℕ) (test : ℕ → Bool) (i : ℕ) → passes n test ≡ true → i ≤ n → test i ≡ true
unfolding passes
passes_at zero test i h le = let z : i ≡ 0 = omega arith in rw z h
passes_at (suc n) test i h le = elim (dec_le i n) [
  | yes below ↦ passes_at n test i (ground arith) below
  | no top ↦ let z : i ≡ suc n = omega arith in rw z (ground arith)
]

-- A mask of length `p` lacks `2 ^ (32 - p)` to 2 ^ 32.
pub mask_value_lem : (p : ℕ) → p ≤ 32 → mask_value p + 2 ^ (32 - p) ≡ 2 ^ 32
unfolding passes mask_value
mask_value_lem p h =
    (==_iff _ _).0 (passes_at 32 (λ q. mask_value q + 2 ^ (32 - q) == 2 ^ 32) p refl h)

pub pow_split : (p : ℕ) → p ≤ 32 → 2 ^ p * 2 ^ (32 - p) ≡ 2 ^ 32
unfolding passes
pow_split p h = (==_iff _ _).0 (passes_at 32 (λ q. 2 ^ q * 2 ^ (32 - q) == 2 ^ 32) p refl h)

abbrev answers : Run ℕ → ℕ → Bool
answers (done q) p = q == p
answers (raised e) p = false
answers fault p = false
answers stuck p = false

answers_lem : (r : Run ℕ) (p : ℕ) → answers r p ≡ true → r ≡ done p
answers_lem (done q) p h = ap done ((==_iff q p).0 h)
answers_lem (raised e) p h = cc
answers_lem fault p h = cc
answers_lem stuck p h = cc

to_mask-mask_value : (p : ℕ) → p ≤ 32 → to_mask (mask_value p) ≡ done p
unfolding passes mask_value to_mask
to_mask-mask_value p h =
    answers_lem (to_mask (mask_value p)) p
      (passes_at 32 (λ q. answers (to_mask (mask_value q)) q) p refl h)

is_mask-mask_value : (p : ℕ) → p ≤ 32 → is_mask (mask_value p) ≡ true
unfolding passes mask_value is_mask
is_mask-mask_value p h = passes_at 32 (λ q. is_mask (mask_value q)) p refl h

-- The inverted mask, read as `isMask` reads it, is a power of two less one.
inverted :
    (a m : ℕ) → a + m + 1 ≡ 2 ^ 32 → bit_and (m + 1) m ≡ 0 → (p : ℕ) × (p ≤ 32) × (a ≡ mask_value p)
inverted a m e h =
    let (k, pow) = power_of_two m m (omega arith) h in
    elim (dec_le k 32) [
      | yes le ↦
          let back : 32 - (32 - k) ≡ k = omega arith in
          let value : mask_value (32 - k) + 2 ^ k ≡ 2 ^ 32 =
            rw back at (mask_value_lem (32 - k) (omega arith)) in
          (32 - k, omega arith, omega arith)
      | no gt ↦
          let large : 2 ^ 33 ≤ 2 ^ k = pow-le-pow_right (omega arith) {i = 33} (omega arith) in
          absurd (omega arith)
    ]

-- A mask is that of some length.
mask_has_length :
    (a : IPv4Address) → a < 2 ^ 32 → is_mask a ≡ true → (p : ℕ) × (p ≤ 32) × (a ≡ mask_value p)
unfolding is_mask
mask_has_length a lt h = elim (Bool-cases (a == 0)) [
  | inl zero_ ↦ (0, omega arith, ground (arith, mask_value_lem 0 (omega arith)))
  | inr other ↦
      let m = sub32 local_broadcast_address_value a in
      let exact : a + m + 1 ≡ 2 ^ 32 = omega arith in
      let pos : a ≢ 0 = ground arith in
      let no_wrap : (m + 1) % 2 ^ 32 ≡ m + 1 = omega (arith, exact, pos) in
      let test : (bit_and ((m + 1) % 2 ^ 32) m == 0) ≡ true = rw other at h in
      inverted a m exact (rw no_wrap at ((==_iff _ _).0 test))
]

all_ones_mask : is_mask local_broadcast_address_value ≡ true
unfolding is_mask
all_ones_mask = refl

refused : (a : IPv4Address) → is_mask a ≡ false → to_mask a ≡ raised logic_error
unfolding to_mask
refused a h = elim (Bool-cases (a == local_broadcast_address_value)) [
  | inl ones ↦
      let e : a ≡ local_broadcast_address_value = (==_iff _ _).0 ones in
      let t : is_mask a ≡ true = rw e all_ones_mask in cc
  | inr other ↦ rw (other, h) refl
]

-- On every address of 32 bits `toMask()` either gives the length, from 0 to 32, of the mask that
-- the address is, and `isMask` is true; or the address is the mask of no such length, `isMask` is
-- false, and it throws.
pub to_mask_cases :
    (a : IPv4Address)
    → a < 2 ^ 32
    → ((p : ℕ) × (p ≤ 32) × (a ≡ mask_value p) × (is_mask a ≡ true) × (to_mask a ≡ done p))
      ⊎ (((p : ℕ) → p ≤ 32 → a ≢ mask_value p)
          × (is_mask a ≡ false)
          × (to_mask a ≡ raised logic_error))
to_mask_cases a lt = elim (Bool-cases (is_mask a)) [
  | inl mask ↦
      let (p, le, e) = mask_has_length a lt mask in
      inl (p, le, e, mask, ap to_mask e ∙ to_mask-mask_value p le)
  | inr none_ ↦ inr (no_length none_, none_, refused a none_)
]
  where
    no_length : is_mask a ≡ false → (p : ℕ) → p ≤ 32 → a ≢ mask_value p
    no_length none_ p le e = cc (ap is_mask e, is_mask-mask_value p le)
