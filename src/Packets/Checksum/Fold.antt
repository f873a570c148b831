-- ===== src/Packets/Checksum/Fold.antt =====
-- The end of `ipChecksumNs`: the carries are folded in, and the bytes reversed.
use pimc_toolkit.Common.{
  ℕ, zero, suc, ◌+◌, ◌*◌, ◌/◌, ◌%◌, ◌^◌, ◌≤◌, ◌<◌, ◌≡◌, refl, ◌∙◌, false, ◌==◌, Bool-cases, inl,
  inr, done, arith,
}
use pimc_toolkit.Packets.Checksum.{fold_loop, carried, reversed}

-- A sum of 16 bits that stands for `acc` in ones' complement arithmetic, where 65535 is 0.
pub record IsFolded (acc s : ℕ) : Type 0 where
  pub below : s < 2 ^ 16
  pub positive : 0 < s
  pub same : s % 65535 ≡ acc % 65535

folded_small : (fuel acc : ℕ) → acc < 2 ^ 16 → fold_loop fuel acc ≡ done acc
unfolding fold_loop
folded_small zero acc h = ground arith
folded_small (suc fuel) acc h = ground arith

fold_step :
    (fuel acc : ℕ)
    → 0 < acc
    → ((s : ℕ) × IsFolded (acc % 2 ^ 16 + acc / 2 ^ 16) s
        × (fold_loop fuel (acc % 2 ^ 16 + acc / 2 ^ 16) ≡ done s))
    → (s : ℕ) × IsFolded acc s × (fold_loop (suc fuel) acc ≡ done s)
unfolding fold_loop
fold_step fuel acc p (s, f, e) = elim (Bool-cases (acc / 2 ^ 16 == 0)) [
  | inl small ↦
      let below : acc < 2 ^ 16 = ground arith in
      (acc, record { below = below; positive = p; same = refl }, rw small refl)
  | inr big ↦
      (s, record { below = f.below; positive = f.positive; same = f.same ∙ omega arith }, rw big e)
]

-- Three rounds of the loop are enough for every sum below 2 ^ 33.
pub fold_loop_lem :
    (acc : ℕ) → 0 < acc → acc < 2 ^ 33 → (s : ℕ) × IsFolded acc s × (fold_loop 3 acc ≡ done s)
fold_loop_lem acc p h =
    let a1 = acc % 2 ^ 16 + acc / 2 ^ 16 in
    let a2 = a1 % 2 ^ 16 + a1 / 2 ^ 16 in
    let a3 = a2 % 2 ^ 16 + a2 / 2 ^ 16 in
    let p1 : 0 < a1 = omega arith in
    let p2 : 0 < a2 = omega arith in
    let p3 : 0 < a3 = omega arith in
    let h1 : a1 < 196607 = omega arith in
    let h2 : a2 ≤ 65537 = omega arith in
    let h3 : a3 < 2 ^ 16 = omega arith in
    fold_step 2 acc p (
      fold_step 1 a1 p1 (
        fold_step 0 a2 p2
          (a3, record { below = h3; positive = p3; same = refl }, folded_small 0 a3 h3)))

pub carried_lem :
    (acc : ℕ)
    → 0 < acc
    → acc < 2 ^ 64
    → (0 < carried acc) × (carried acc < 2 ^ 33) × (carried acc % 65535 ≡ acc % 65535)
carried_lem acc p h = (omega arith, omega arith, omega arith)

pub reversed_even : (offset s : ℕ) → offset % 2 ≡ 0 → reversed offset s ≡ s
reversed_even offset s h = ground arith

-- Where the bytes change places the number is multiplied by 256.
pub reversed_odd :
    (offset s : ℕ)
    → offset % 2 ≡ 1
    → s < 2 ^ 16
    → (reversed offset s < 2 ^ 16) × (reversed offset s % 65535 ≡ (256 * s) % 65535)
reversed_odd offset s h b =
    let odd : (offset % 2 == 0) ≡ false = ground arith in rw odd (omega arith, omega arith)
