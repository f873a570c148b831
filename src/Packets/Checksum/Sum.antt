-- ===== src/Packets/Checksum/Sum.antt =====
-- The sum that `ipChecksumNs` accumulates, and the sum of the 16-bit words of the data.
use pimc_toolkit.Common.{
  ℕ, zero, suc, ◌+◌, ◌-◌, ◌*◌, ◌%◌, ◌^◌, ◌≤◌, ◌<◌, ◌≡◌, refl, sym, ap, List, [], ◌∷◌, ◌++◌, All,
  Bool, true, false, not, if◌then◌else◌, length, min, arith,
}
use mathlib.Core.Path.{subst}
use pimc_toolkit.Packets.Writer.{zeros}
use pimc_toolkit.Packets.Checksum.{net_word, words_loop, partial_end, summed}

-- The sum of the words of two bytes, the first byte of each being the high one; `hi` says whether the
-- next byte is a first one. A last byte without a second one counts as if followed by 0.
unfoldable pub weigh : Bool → List ℕ → ℕ
weigh hi [] = 0
weigh hi (b ∷ bs) = (if hi then b * 256 else b) + weigh (not hi) bs

abbrev pub IsByte : ℕ → Type 0
IsByte b = b < 256

weigh_shift :
    (s : List ℕ)
    → ((256 * weigh false s) % 65535 ≡ weigh true s % 65535)
      × ((256 * weigh true s) % 65535 ≡ weigh false s % 65535)
unfolding weigh
weigh_shift [] = (refl, refl)
weigh_shift (b ∷ s) = let (f, t) = weigh_shift s in (omega (arith, t), omega (arith, f))

pub weigh_odd : (s : List ℕ) → (256 * weigh false s) % 65535 ≡ weigh true s % 65535
weigh_odd s = (weigh_shift s).0

-- What is added up, without the wrap.
pub record Sums (acc total : ℕ) (bytes : List ℕ) : Type 0 where
  pub least : acc ≤ total
  pub most : total ≤ acc + 2 ^ 32 * length bytes
  pub same : total % 65535 ≡ (acc + weigh true bytes) % 65535

net_word_lem :
    (b0 b1 b2 b3 : ℕ)
    → b0 < 256
    → b1 < 256
    → b2 < 256
    → b3 < 256
    → net_word (b0 ∷ b1 ∷ b2 ∷ b3 ∷ []) ≡ b0 * 2 ^ 24 + b1 * 2 ^ 16 + b2 * 2 ^ 8 + b3
net_word_lem b0 b1 b2 b3 h0 h1 h2 h3 = omega arith

Sums-more :
    (acc b0 b1 b2 b3 : ℕ)
    → b0 < 256
    → b1 < 256
    → b2 < 256
    → b3 < 256
    → (rest : List ℕ) (total : ℕ)
    → Sums (acc + (b0 * 2 ^ 24 + b1 * 2 ^ 16 + b2 * 2 ^ 8 + b3)) total rest
    → Sums acc total (b0 ∷ b1 ∷ b2 ∷ b3 ∷ rest)
unfolding weigh
Sums-more acc b0 b1 b2 b3 h0 h1 h2 h3 rest total r = record {
  least = omega (arith, r.least);
  most = omega (arith, r.most);
  same = omega (arith, r.same);
}

word_taken :
    (acc b0 b1 b2 b3 : ℕ)
    → b0 < 256
    → b1 < 256
    → b2 < 256
    → b3 < 256
    → (rest : List ℕ) → acc + 2 ^ 32 < 2 ^ 64
    → words_loop acc (b0 ∷ b1 ∷ b2 ∷ b3 ∷ rest)
      ≡ words_loop (acc + (b0 * 2 ^ 24 + b1 * 2 ^ 16 + b2 * 2 ^ 8 + b3)) rest
unfolding words_loop
word_taken acc b0 b1 b2 b3 h0 h1 h2 h3 rest m =
    let n = b0 * 2 ^ 24 + b1 * 2 ^ 16 + b2 * 2 ^ 8 + b3 in
    let exact : (acc + net_word (b0 ∷ b1 ∷ b2 ∷ b3 ∷ [])) % 2 ^ 64 ≡ acc + n =
      omega (arith, net_word_lem b0 b1 b2 b3 h0 h1 h2 h3) in
    ap (λ a. words_loop a rest) exact

pub words_sum :
    (acc : ℕ) (bytes : List ℕ)
    → All IsByte bytes
    → acc + 2 ^ 32 * length bytes < 2 ^ 64
    → Sums acc (partial_end (words_loop acc bytes)) bytes
unfolding words_loop weigh
words_sum acc [] h m = omega arith
words_sum acc (b0 ∷ []) (h0, _) m =
    let w = net_word_lem b0 0 0 0 h0 (omega arith) (omega arith) (omega arith) in
    record { least = omega arith; most = omega arith; same = omega arith }
words_sum acc (b0 ∷ b1 ∷ []) (h0, (h1, _)) m =
    let w = net_word_lem b0 b1 0 0 h0 h1 (omega arith) (omega arith) in
    record { least = omega arith; most = omega arith; same = omega arith }
words_sum acc (b0 ∷ b1 ∷ b2 ∷ []) (h0, (h1, (h2, _))) m =
    let w = net_word_lem b0 b1 b2 0 h0 h1 h2 (omega arith) in
    record { least = omega arith; most = omega arith; same = omega arith }
words_sum acc (b0 ∷ b1 ∷ b2 ∷ b3 ∷ rest) (h0, (h1, (h2, (h3, h)))) m =
    let n = b0 * 2 ^ 24 + b1 * 2 ^ 16 + b2 * 2 ^ 8 + b3 in
    let one_word = word_taken acc b0 b1 b2 b3 h0 h1 h2 h3 rest (omega arith) in
    subst (λ p. Sums acc (partial_end p) (b0 ∷ b1 ∷ b2 ∷ b3 ∷ rest)) (sym one_word)
      (Sums-more acc b0 b1 b2 b3 h0 h1 h2 h3 rest (partial_end (words_loop (acc + n) rest))
        (words_sum (acc + n) rest h (omega arith)))

-- The partial word at the start is the first word of the data with zeros in front.
pub summed-padded :
    (offset : ℕ) (bytes : List ℕ)
    → offset < 4
    → summed offset bytes ≡ partial_end (words_loop 0xffff (zeros offset ++ bytes))
unfolding summed words_loop zeros
summed-padded zero bytes h = refl
summed-padded (suc zero) [] h = refl
summed-padded (suc zero) (b0 ∷ []) h = refl
summed-padded (suc zero) (b0 ∷ b1 ∷ []) h = refl
summed-padded (suc zero) (b0 ∷ b1 ∷ b2 ∷ rest) h =
    let count : min (4 - 1) (length (b0 ∷ b1 ∷ b2 ∷ rest)) ≡ 3 = omega arith in rw count refl
summed-padded (suc (suc zero)) [] h = refl
summed-padded (suc (suc zero)) (b0 ∷ []) h = refl
summed-padded (suc (suc zero)) (b0 ∷ b1 ∷ rest) h =
    let count : min (4 - 2) (length (b0 ∷ b1 ∷ rest)) ≡ 2 = omega arith in rw count refl
summed-padded (suc (suc (suc zero))) [] h = refl
summed-padded (suc (suc (suc zero))) (b0 ∷ rest) h =
    let count : min (4 - 3) (length (b0 ∷ rest)) ≡ 1 = omega arith in rw count refl
summed-padded (suc (suc (suc (suc n)))) bytes h = ground arith
