-- ===== src/Packets/Views.antt =====
-- lib/pimc/packets/PacketView.hpp: the pointers of a view are offsets of the region that holds the packet.
-- A field of a header is read from its bytes there, the least significant byte first.
pub mod Reads
use pimc_toolkit.Common.{
  ℕ, ◌+◌, ◌*◌, ◌/◌, ◌%◌, ◌^◌, leb, if◌then◌else◌, List, Option, none, some, Run, done, ◌>>=◌, deref,
  get_elem?, sub64, zero, suc,
}

pub record PacketView : Type 0 where
  pub start : ℕ
  pub len : ℕ
  pub taken : ℕ

abbrev pub view_of : ℕ → ℕ → PacketView
view_of start len = record { start = start; len = len; taken = 0 }

abbrev pub advance : ℕ → PacketView → PacketView
advance sz pv = record pv { taken = (pv.taken + sz) % 2 ^ 64 }

-- The offset that the viewer is called with, and the view behind the bytes; `none` is `false`.
unfoldable pub take_bytes : ℕ → PacketView → Option (ℕ × PacketView)
take_bytes sz pv =
    if leb ((pv.taken + sz) % 2 ^ 64) pv.len
    then some (pv.start + pv.taken, advance sz pv)
    else none

unfoldable pub skip : ℕ → PacketView → Option PacketView
skip sz pv = if leb ((pv.taken + sz) % 2 ^ 64) pv.len then some (advance sz pv) else none

abbrev pub remaining : PacketView → ℕ
remaining pv = sub64 pv.len pv.taken

-- The bytes of a field.
abbrev pub read8 : ℕ → List ℕ → Run ℕ
read8 p memory = deref (get_elem? memory p)

unfoldable pub read16 : ℕ → List ℕ → Run ℕ
read16 p memory = do b0 ← read8 p memory; b1 ← read8 (p + 1) memory; done (b0 + b1 * 2 ^ 8)

unfoldable pub read32 : ℕ → List ℕ → Run ℕ
unfolding read16
read32 p memory = do h0 ← read16 p memory; h1 ← read16 (p + 2) memory; done (h0 + h1 * 2 ^ 16)

-- The number in `n` bytes, the most significant byte first, behind a number that has been read: what
-- `be64toh` makes of a field of eight bytes.
unfoldable pub read_be : ℕ → ℕ → ℕ → List ℕ → Run ℕ
read_be zero acc p memory = done acc
read_be (suc n) acc p memory = do b ← read8 p memory; read_be n (acc * 2 ^ 8 + b) (p + 1) memory
