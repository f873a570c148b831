-- ===== src/Packets/Checksum.antt =====
-- lib/pimc/packets/IPChecksum.cpp
pub mod Sum
pub mod Fold
pub mod Correct
use pimc_toolkit.Common.{
  ℕ, zero, suc, ◌+◌, ◌-◌, ◌*◌, ◌/◌, ◌%◌, ◌^◌, List, [], ◌∷◌, ◌++◌, Option, none, some, min, ◌==◌,
  if◌then◌else◌, length, get_elem?, take, drop, Run, done, stuck, ◌>>=◌,
}
use pimc_toolkit.Net.Address.{from_nl}
use pimc_toolkit.Packets.Writer.{htons, zeros}

-- A byte that `memcpy` has set, or one of the zeros that the word began with.
abbrev pub or_zero : Option ℕ → ℕ
or_zero none = 0
or_zero (some b) = b

-- A word that was zero, with the bytes `bs` copied to its start, and `ntohl` of it.
abbrev pub word : List ℕ → ℕ
word bs =
    or_zero (get_elem? bs 0)
    + or_zero (get_elem? bs 1) * 2 ^ 8
    + or_zero (get_elem? bs 2) * 2 ^ 16
    + or_zero (get_elem? bs 3) * 2 ^ 24

abbrev pub net_word : List ℕ → ℕ
net_word bs = from_nl (word bs)

-- The complete words from the start of the data on, and what is left behind them.
unfoldable pub words_loop : ℕ → List ℕ → ℕ × List ℕ
words_loop acc [] = (acc, [])
words_loop acc (b0 ∷ []) = (acc, b0 ∷ [])
words_loop acc (b0 ∷ b1 ∷ []) = (acc, b0 ∷ b1 ∷ [])
words_loop acc (b0 ∷ b1 ∷ b2 ∷ []) = (acc, b0 ∷ b1 ∷ b2 ∷ [])
words_loop acc (b0 ∷ b1 ∷ b2 ∷ b3 ∷ rest) =
    words_loop ((acc + net_word (b0 ∷ b1 ∷ b2 ∷ b3 ∷ [])) % 2 ^ 64) rest

-- The partial word at the start, which begins `offset` bytes behind a word boundary.
abbrev pub partial_start : ℕ → ℕ → List ℕ → ℕ × List ℕ
partial_start acc offset bytes =
    let count = min (4 - offset) (length bytes) in
    if offset == 0
    then (acc, bytes)
    else ((acc + net_word (zeros offset ++ take count bytes)) % 2 ^ 64, drop count bytes)

-- The partial word at the end.
abbrev pub partial_end : ℕ × List ℕ → ℕ
partial_end (acc, []) = acc
partial_end (acc, b ∷ rest) = (acc + net_word (b ∷ rest)) % 2 ^ 64

-- `while (acc >> 16)`: three rounds are the most that a sum below 2 ^ 64 takes here.
unfoldable pub fold_loop : ℕ → ℕ → Run ℕ
fold_loop zero acc = if acc / 2 ^ 16 == 0 then done acc else stuck
fold_loop (suc fuel) acc =
    let rest = fold_loop fuel (acc % 2 ^ 16 + acc / 2 ^ 16) in
    if acc / 2 ^ 16 == 0 then done acc else rest

abbrev pub carried : ℕ → ℕ
carried acc = acc % 2 ^ 32 + acc / 2 ^ 32

-- The bytes change places where the data began at an odd address.
abbrev pub reversed : ℕ → ℕ → ℕ
reversed offset acc = if offset % 2 == 0 then acc else acc / 2 ^ 8 % 2 ^ 8 + acc % 2 ^ 8 * 2 ^ 8

-- `htons(static_cast<uint16_t>(~acc))`
abbrev pub inverted : ℕ → ℕ
inverted acc = htons ((2 ^ 64 - 1 - acc) % 2 ^ 16)

unfoldable pub summed : ℕ → List ℕ → ℕ
unfolding words_loop zeros
summed offset bytes = let p = partial_start 0xffff offset bytes in partial_end (words_loop p.0 p.1)

-- The data are `bytes`, which stand at the address `addr`.
unfoldable pub ip_checksum_ns : ℕ → List ℕ → Run ℕ
unfolding summed fold_loop
ip_checksum_ns addr bytes =
    let offset = addr % 4 in
    fold_loop 3 (carried (summed offset bytes)) >>= λ acc. done (inverted (reversed offset acc))
