-- ===== src/Net/Bits.antt =====
-- `bit_and` at variables, from its digits: masks with a run of ones at the top, and the test for a
-- power of two.
use Prim.Native.Nat.{min, bit_and, digits, bit_and-bitwise}
use native.Mathlib.Nat.{pow-suc, mul_comm, div-div-eq-div-mul}
use native.Mathlib.Decide.{dec_le}
use mathlib.Core.Path.{subst}
use pimc_toolkit.Common.{
  sym, ◌∙◌, ℕ, zero, suc, ◌+◌, ◌-◌, ◌*◌, ◌/◌, ◌%◌, ◌^◌, ◌≤◌, ◌<◌, ◌≡◌, refl, ap, arith,
}

-- The digits of a conjunction, on fuel.
abbrev meet : ℕ → ℕ → ℕ → ℕ
meet fuel a b = digits (λ _. zero) min fuel a b

-- Fuel beyond the first number changes nothing.
meet_more : (fuel a b : ℕ) → a ≤ fuel → meet (suc fuel) a b ≡ meet fuel a b
meet_more zero zero b h = refl
meet_more zero (suc a) b h = absurd (omega arith)
meet_more (suc fuel) zero b h = refl
meet_more (suc fuel) (suc a) b h = omega (arith, meet_more fuel (suc a / 2) (b / 2) (omega arith))

meet_enough : (fuel a b : ℕ) → a ≤ fuel → meet fuel a b ≡ bit_and a b
meet_enough zero zero b h = sym (bit_and-bitwise zero b)
meet_enough zero (suc a) b h = absurd (omega arith)
meet_enough (suc fuel) a b h = elim (dec_le a fuel) [
  | yes le ↦ meet_more fuel a b le ∙ meet_enough fuel a b le
  | no gt ↦
      let same : a ≡ suc fuel = omega arith in
      subst (λ (x : ℕ). meet x a b ≡ bit_and a b) same (sym (bit_and-bitwise a b))
]

-- The lowest digit.
pub bit_and_step : (a b : ℕ) → bit_and a b ≡ bit_and (a / 2) (b / 2) * 2 + min (a % 2) (b % 2)
bit_and_step zero b = omega (arith, bit_and-bitwise 0 b, bit_and-bitwise 0 (b / 2))
bit_and_step (suc a) b =
    omega (arith, bit_and-bitwise (suc a) b, meet_enough a (suc a / 2) (b / 2) (omega arith))

bit_and-zero : (n a : ℕ) → a ≤ n → bit_and a 0 ≡ 0
bit_and-zero n zero h = refl
bit_and-zero zero (suc a) h = absurd (omega arith)
bit_and-zero (suc n) (suc a) h =
    omega (arith, bit_and_step (suc a) 0, bit_and-zero n (suc a / 2) (omega arith))

bit_and_self : (n a : ℕ) → a ≤ n → bit_and a a ≡ a
bit_and_self n zero h = refl
bit_and_self zero (suc a) h = absurd (omega arith)
bit_and_self (suc n) (suc a) h =
    omega (arith, bit_and_step (suc a) (suc a), bit_and_self n (suc a / 2) (omega arith))

pub pow_two : (k : ℕ) → 2 ^ suc k ≡ 2 ^ k * 2
pow_two k = pow-suc 2 k

pub pow_pos : (k : ℕ) → 0 < 2 ^ k
pow_pos zero = omega arith
pow_pos (suc k) = omega (arith, pow_two k, pow_pos k)

pub pow_add : (n m s : ℕ) → n + m ≡ s → 2 ^ n * 2 ^ m ≡ 2 ^ s
pow_add zero m s e = let same : m ≡ s = omega arith in rw same (omega arith)
pow_add (suc n) m zero e = absurd (omega arith)
pow_add (suc n) m (suc s) e =
    omega (arith, pow_add n m s (omega arith), pow_two s, ap (λ (t : ℕ). t * 2 ^ m) (pow_two n))

div_pow : (a k : ℕ) → a / 2 ^ suc k ≡ a / 2 / 2 ^ k
div_pow a k =
    ap (λ (t : ℕ). a / t) (pow_two k ∙ mul_comm (2 ^ k) 2) ∙ sym (div-div-eq-div-mul a 2 (2 ^ k))

-- A mask of `h` ones over `k` zeros, against a number that such a mask covers.
pub bit_and_ones : (h a : ℕ) → a < 2 ^ h → bit_and a (2 ^ h - 1) ≡ a
bit_and_ones zero a lt =
    let none_ : a ≡ 0 = omega arith in omega (arith, none_, bit_and-zero a a (omega arith))
bit_and_ones (suc h) a lt =
    let pos : 0 < 2 ^ h = pow_pos h in
    let halves : (2 ^ suc h - 1) / 2 ≡ 2 ^ h - 1 = omega (arith, pow_two h) in
    let ih : bit_and (a / 2) ((2 ^ suc h - 1) / 2) ≡ a / 2 =
      rw halves (bit_and_ones h (a / 2) (omega (arith, pow_two h))) in
    omega (arith, bit_and_step a (2 ^ suc h - 1), ih, pow_two h)

pub bit_and_mask :
    (k h a : ℕ) → a < 2 ^ h * 2 ^ k → bit_and a ((2 ^ h - 1) * 2 ^ k) ≡ a / 2 ^ k * 2 ^ k
bit_and_mask zero h a lt =
    let whole : (2 ^ h - 1) * 1 ≡ 2 ^ h - 1 = omega arith in
    rw whole (omega (arith, bit_and_ones h a (omega arith)))
bit_and_mask (suc k) h a lt =
    let mask = (2 ^ h - 1) * 2 ^ k in
    let double : (2 ^ h - 1) * 2 ^ suc k ≡ mask * 2 =
      omega (arith, ap (λ (t : ℕ). (2 ^ h - 1) * t) (pow_two k)) in
    let half : mask * 2 / 2 ≡ mask = omega arith in
    let below : a / 2 < 2 ^ h * 2 ^ k = omega (arith, lt, ap (λ (t : ℕ). 2 ^ h * t) (pow_two k)) in
    let ih : bit_and (a / 2) (mask * 2 / 2) ≡ a / 2 / 2 ^ k * 2 ^ k =
      rw half (bit_and_mask k h (a / 2) below) in
    rw double (
      omega (
        arith,
        bit_and_step a (mask * 2),
        ih,
        ap (λ (t : ℕ). t * 2 ^ suc k) (div_pow a k),
        ap (λ (t : ℕ). a / 2 / 2 ^ k * t) (pow_two k),
      ))

-- Only a number of ones alone has no digit in common with its successor.
pub power_of_two : (n m : ℕ) → m ≤ n → bit_and (m + 1) m ≡ 0 → (k : ℕ) × (m + 1 ≡ 2 ^ k)
power_of_two n zero le h = (0, omega arith)
power_of_two zero (suc m) le h = absurd (omega arith)
power_of_two (suc n) (suc m) le h = elim (dec_le 1 (suc m % 2)) [
  | yes odd ↦
      let half = suc m / 2 in
      let up : (suc m + 1) / 2 ≡ half + 1 = omega arith in
      let smaller : bit_and (half + 1) half ≡ 0 = rw up at (
        let e : bit_and ((suc m + 1) / 2) (suc m / 2) ≡ 0 =
          omega (arith, bit_and_step (suc m + 1) (suc m), h) in
        e) in
      let (k, e) = power_of_two n half (omega arith) smaller in (suc k, omega (arith, e, pow_two k))
  | no even ↦
      let half = suc m / 2 in
      let same : (suc m + 1) / 2 ≡ half = omega arith in
      let none_ : half ≡ 0 = omega (
        arith,
        bit_and_step (suc m + 1) (suc m),
        h,
        ap (λ (t : ℕ). bit_and t half) same,
        bit_and_self half half (omega arith),
      ) in
      absurd (omega arith)
]
