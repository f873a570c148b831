-- ===== src/Packets/Checksum/Correct.antt =====
-- The checksum is the one's complement of the one's complement sum of the data, wherever they stand.
use pimc_toolkit.Common.{
  ℕ, zero, suc, ◌%◌, ◌^◌, ◌<◌, ◌≡◌, refl, ◌∙◌, List, ◌∷◌, ◌++◌, All, true, false, ◌==◌, Bool-cases,
  inl, inr, length, done, arith,
}
use pimc_toolkit.Packets.Writer.{zeros, bytes16}
use pimc_toolkit.Packets.Checksum.{
  words_loop, partial_end, summed, carried, reversed, inverted, ip_checksum_ns,
}
use pimc_toolkit.Packets.Checksum.Sum.{weigh, weigh_odd, IsByte, words_sum, summed-padded}
use pimc_toolkit.Packets.Checksum.Fold.{fold_loop_lem, carried_lem, reversed_even, reversed_odd}

-- What the sum is for data that begin `offset` bytes behind a word boundary.
record IsSum (offset total : ℕ) (bytes : List ℕ) : Type 0 where
  least : 0 < total
  most : total < 2 ^ 64
  even : offset % 2 ≡ 0 → total % 65535 ≡ weigh true bytes % 65535
  odd : offset % 2 ≡ 1 → total % 65535 ≡ weigh false bytes % 65535

padded :
    (offset : ℕ) (bytes : List ℕ)
    → offset < 4
    → All IsByte bytes
    → length bytes < 2 ^ 30
    → IsSum offset (partial_end (words_loop 0xffff (zeros offset ++ bytes))) bytes
unfolding zeros weigh
padded zero bytes h a m =
    let s = words_sum 0xffff bytes a (omega arith) in
    record {
      least = omega (arith, s.least);
      most = omega (arith, s.most);
      even = λ e. omega (arith, s.same);
      odd = λ e. ground arith;
    }
padded (suc zero) bytes h a m =
    let s = words_sum 0xffff (0 ∷ bytes) (omega arith, a) (omega arith) in
    record {
      least = omega (arith, s.least);
      most = omega (arith, s.most);
      even = λ e. ground arith;
      odd = λ e. omega (arith, s.same);
    }
padded (suc (suc zero)) bytes h a m =
    let s = words_sum 0xffff (0 ∷ 0 ∷ bytes) (omega arith, (omega arith, a)) (omega arith) in
    record {
      least = omega (arith, s.least);
      most = omega (arith, s.most);
      even = λ e. omega (arith, s.same);
      odd = λ e. ground arith;
    }
padded (suc (suc (suc zero))) bytes h a m =
    let s =
      words_sum 0xffff (0 ∷ 0 ∷ 0 ∷ bytes) (omega arith, (omega arith, (omega arith, a)))
        (omega arith) in
    record {
      least = omega (arith, s.least);
      most = omega (arith, s.most);
      even = λ e. ground arith;
      odd = λ e. omega (arith, s.same);
    }
padded (suc (suc (suc (suc n)))) bytes h a m = ground arith

-- The folded sum, with its bytes in order, stands for the sum of the data.
reversed_lem :
    (offset total s : ℕ) (bytes : List ℕ)
    → IsSum offset total bytes
    → s < 2 ^ 16
    → s % 65535 ≡ total % 65535
    → (reversed offset s < 2 ^ 16) × (reversed offset s % 65535 ≡ weigh true bytes % 65535)
reversed_lem offset total s bytes sum b e = elim (Bool-cases (offset % 2 == 0)) [
  | inl even ↦
      let is_even : offset % 2 ≡ 0 = ground arith in
      rw (reversed_even offset s is_even) (b, e ∙ sum.even is_even)
  | inr odd ↦
      let is_odd : offset % 2 ≡ 1 = ground arith in
      let (lt, times) = reversed_odd offset s is_odd b in
      let same : s % 65535 ≡ weigh false bytes % 65535 = e ∙ sum.odd is_odd in
      (lt, omega (arith, times, same, weigh_odd bytes))
]

inverted_lem :
    (r : ℕ) (bytes : List ℕ)
    → r < 2 ^ 16
    → r % 65535 ≡ weigh true bytes % 65535
    → (inverted r < 2 ^ 16) × (weigh true (bytes16 (inverted r) ++ bytes) % 65535 ≡ 0)
unfolding weigh
inverted_lem r bytes b e = (omega arith, omega arith)

-- For data of fewer than 2 ^ 30 bytes at any address the function returns a number of 16 bits such that
-- the data with this number in front of them, as it is stored, have the one's complement sum 0: a
-- receiver finds the checksum right.
pub ip_checksum_verifies :
    (addr : ℕ) (bytes : List ℕ)
    → All IsByte bytes
    → length bytes < 2 ^ 30
    → (c : ℕ) × (ip_checksum_ns addr bytes ≡ done c)
      × (c < 2 ^ 16)
      × (weigh true (bytes16 c ++ bytes) % 65535 ≡ 0)
unfolding ip_checksum_ns
ip_checksum_verifies addr bytes a m =
    let offset = addr % 4 in
    let sum : IsSum offset (summed offset bytes) bytes =
      rw (summed-padded offset bytes (omega arith)) (padded offset bytes (omega arith) a m) in
    let (p, b, same) = carried_lem (summed offset bytes) sum.least sum.most in
    let (s, f, e) = fold_loop_lem (carried (summed offset bytes)) p b in
    let (lt, r) = reversed_lem offset (summed offset bytes) s bytes sum f.below (f.same ∙ same) in
    let (lt', z) = inverted_lem (reversed offset s) bytes lt r in
    (inverted (reversed offset s), rw e refl, lt', z)
