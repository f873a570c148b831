-- ===== src/Packets/Views/Reads.antt =====
-- Reads of a region by lib/pimc/packets/PacketView.hpp and the header views: in bounds, and behind
-- other bytes.
use pimc_toolkit.Common.{
  ℕ, zero, suc, ◌+◌, ◌*◌, ◌%◌, ◌^◌, ◌≤◌, ◌<◌, ◌≡◌, refl, ap, ◌⊎◌, inl, inr, leb, Bool-cases, List,
  ◌++◌, none, some, length, get_elem?_below, get_elem?-append, deref, Returns, >>=_ext, arith,
}
use pimc_toolkit.Packets.Views.{PacketView, take_bytes, skip, read8, read16, read32, read_be}

abbrev Anything : ℕ → Type 0
Anything x = Unit

pub read8_within : (p : ℕ) (m : List ℕ) → p < length m → Returns Anything (read8 p m)
read8_within p m h = let (b, e) = get_elem?_below m p h in rw e (b, refl, tt)

pub read16_within : (p : ℕ) (m : List ℕ) → p + 1 < length m → Returns Anything (read16 p m)
unfolding read16
read16_within p m h =
    let (b0, e0, _) = read8_within p m (omega arith) in
    let (b1, e1, _) = read8_within (p + 1) m (omega arith) in rw (e0, e1) (_, refl, tt)

pub read32_within : (p : ℕ) (m : List ℕ) → p + 3 < length m → Returns Anything (read32 p m)
unfolding read32
read32_within p m h =
    let (h0, e0, _) = read16_within p m (omega arith) in
    let (h1, e1, _) = read16_within (p + 2) m (omega arith) in rw (e0, e1) (_, refl, tt)

pub read_be_within :
    (n acc p : ℕ) (m : List ℕ) → p + n ≤ length m → Returns Anything (read_be n acc p m)
unfolding read_be
read_be_within zero acc p m h = (acc, refl, tt)
read_be_within (suc n) acc p m h =
    let (b, e, _) = read8_within p m (omega arith) in
    rw e (read_be_within n (acc * 2 ^ 8 + b) (p + 1) m (omega arith))

-- Where the sizes do not wrap around, bytes are taken as long as they are there.
pub take_bytes-cases :
    (sz : ℕ) (pv : PacketView)
    → pv.taken + sz < 2 ^ 64
    → (take_bytes sz pv ≡ none)
      ⊎ ((pv.taken + sz ≤ pv.len)
          × (take_bytes sz pv ≡ some (pv.start + pv.taken, record pv { taken = pv.taken + sz })))
unfolding take_bytes
take_bytes-cases sz pv h =
    let no_wrap : (pv.taken + sz) % 2 ^ 64 ≡ pv.taken + sz = omega arith in
    elim (Bool-cases (leb (pv.taken + sz) pv.len)) [
      | inl fits ↦ inr (ground arith, rw (no_wrap, fits) refl)
      | inr short ↦ inl (rw (no_wrap, short) refl)
    ]

pub skip-cases :
    (sz : ℕ) (pv : PacketView)
    → pv.taken + sz < 2 ^ 64
    → (skip sz pv ≡ none)
      ⊎ ((pv.taken + sz ≤ pv.len) × (skip sz pv ≡ some (record pv { taken = pv.taken + sz })))
unfolding skip
skip-cases sz pv h =
    let no_wrap : (pv.taken + sz) % 2 ^ 64 ≡ pv.taken + sz = omega arith in
    elim (Bool-cases (leb (pv.taken + sz) pv.len)) [
      | inl fits ↦ inr (ground arith, rw (no_wrap, fits) refl)
      | inr short ↦ inl (rw (no_wrap, short) refl)
    ]

-- Behind other bytes, a field is read from the bytes that follow them.
pub read8_behind : (pre m : List ℕ) (i p : ℕ) → p ≡ length pre + i → read8 p (pre ++ m) ≡ read8 i m
read8_behind pre m i p h = ap deref (get_elem?-append pre m i p h)

pub read16_behind :
    (pre m : List ℕ) (i p : ℕ) → p ≡ length pre + i → read16 p (pre ++ m) ≡ read16 i m
unfolding read16
read16_behind pre m i p h =
    rw (read8_behind pre m i p h, read8_behind pre m (i + 1) (p + 1) (omega arith)) refl

pub read_be_behind :
    (n acc : ℕ) (pre m : List ℕ) (i p : ℕ)
    → p ≡ length pre + i
    → read_be n acc p (pre ++ m) ≡ read_be n acc i m
unfolding read_be
read_be_behind zero acc pre m i p h = refl
read_be_behind (suc n) acc pre m i p h = rw (read8_behind pre m i p h) (
    >>=_ext (read8 i m) (λ b. read_be n (acc * 2 ^ 8 + b) (p + 1) (pre ++ m))
      (λ b. read_be n (acc * 2 ^ 8 + b) (i + 1) m)
      (λ b. read_be_behind n (acc * 2 ^ 8 + b) pre m (i + 1) (p + 1) (omega arith)))
