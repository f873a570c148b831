-- ===== src/Packets/Pim.antt =====
-- lib/pimc/packets/PIMSMv2.hpp and PIMSMv2Utils.hpp. The two fields of a byte that is shared are
-- assigned at once.
use pimc_toolkit.Common.{
  ℕ, ◌+◌, ◌*◌, ◌%◌, ◌^◌, [], ◌∷◌, ◌++◌, Bool, if◌then◌else◌, take, drop, Run, ◌>>=◌,
}
use pimc_toolkit.Net.Address.{IPv4Address, to_nl}
use pimc_toolkit.Packets.Writer.{PacketWriter, emit, put, next, bytes16, bytes32, htons}
use pimc_toolkit.Packets.Checksum.{ip_checksum_ns}

abbrev pub ipv4_family_number : ℕ
ipv4_family_number = 1

abbrev pub native_encoding : ℕ
native_encoding = 0

abbrev pub message_hello : ℕ
message_hello = 0

abbrev pub message_join_prune : ℕ
message_join_prune = 3

abbrev pub opt_holdtime : ℕ
opt_holdtime = 1

abbrev pub opt_dr_priority : ℕ
opt_dr_priority = 19

abbrev pub opt_generation_id : ℕ
opt_generation_id = 20

-- The checksum, the last two bytes of the header, is left as it is.
unfoldable pub write_hdr : PacketWriter → ℕ → Run PacketWriter
unfolding emit
write_hdr pw type = emit pw 4 ((2 * 2 ^ 4 + type % 2 ^ 4) ∷ 0 ∷ [])

-- `base` is the address of the region, on which the sum of the bytes depends.
unfoldable pub write_chk_sum : ℕ → PacketWriter → ℕ → Run PacketWriter
unfolding ip_checksum_ns
write_chk_sum base pw sz = do
  sum ← ip_checksum_ns (base + pw.start) (take sz (drop pw.start pw.memory))
  let (hdr, pw') = next pw 4
  put pw' (hdr + 2) (bytes16 sum)

unfoldable pub write_ipv4_addr : PacketWriter → IPv4Address → Run PacketWriter
unfolding emit
write_ipv4_addr pw uaddr = do
  pw1 ← emit pw 2 (ipv4_family_number ∷ native_encoding ∷ [])
  emit pw1 4 (bytes32 (to_nl uaddr))

unfoldable pub write_ipv4_jp_hdr : PacketWriter → IPv4Address → ℕ → ℕ → Run PacketWriter
unfolding write_ipv4_addr emit
write_ipv4_jp_hdr pw neighbor grp_num holdtime = do
  pw1 ← write_ipv4_addr pw neighbor
  pw2 ← emit pw1 1 (0 ∷ [])
  pw3 ← emit pw2 1 (grp_num ∷ [])
  emit pw3 2 (bytes16 (htons holdtime))

unfoldable pub write_ipv4_grp : PacketWriter → IPv4Address → Run PacketWriter
unfolding emit
write_ipv4_grp pw group = do
  pw1 ← emit pw 4 (ipv4_family_number ∷ native_encoding ∷ 0 ∷ 32 ∷ [])
  emit pw1 4 (bytes32 (to_nl group))

-- The flags are S, W and R from the third bit down.
unfoldable pub write_ipv4_src : PacketWriter → IPv4Address → Bool → Bool → Run PacketWriter
unfolding emit
write_ipv4_src pw src rpt wc = do
  let r = if rpt then 1 else 0
  let w = if wc then 1 else 0
  pw1 ← emit pw 4 (ipv4_family_number ∷ native_encoding ∷ (4 + w * 2 + r) ∷ 32 ∷ [])
  emit pw1 4 (bytes32 (to_nl src))

-- `htonl` is that of `to_nl`.
unfoldable pub write_opt_holdtime : PacketWriter → ℕ → Run PacketWriter
unfolding emit
write_opt_holdtime pw holdtime = do
  pw1 ← emit pw 4 (bytes16 (htons opt_holdtime) ++ bytes16 (htons 2))
  emit pw1 2 (bytes16 (htons holdtime))

unfoldable pub write_opt_dr_priority : PacketWriter → ℕ → Run PacketWriter
unfolding emit
write_opt_dr_priority pw dr_prio = do
  pw1 ← emit pw 4 (bytes16 (htons opt_dr_priority) ++ bytes16 (htons 4))
  emit pw1 4 (bytes32 (to_nl dr_prio))

unfoldable pub write_opt_generation_id : PacketWriter → ℕ → Run PacketWriter
unfolding emit
write_opt_generation_id pw gen_id = do
  pw1 ← emit pw 4 (bytes16 (htons opt_generation_id) ++ bytes16 (htons 4))
  emit pw1 4 (bytes32 (to_nl gen_id))
