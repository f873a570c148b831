-- ===== src/Packets/UpdatePacket.antt =====
-- apps/pimc/packets/IPv4PIMUpdatePacket.cpp: the packet with an update. The text that describes the
-- packet is left out, and so is the number of the packet, which only this text shows.
use pimc_toolkit.Common.{
  ℕ, ◌+◌, ◌%◌, ◌^◌, List, [], ◌∷◌, not, ◌==◌, if◌then◌else◌, length, Run, done, raised, logic_error,
  ◌>>=◌,
}
use pimc_toolkit.Net.Address.{IPv4Address, of_octets, to_nl}
use pimc_toolkit.Pimsm.Params.{pim_jp_hdr_size}
use pimc_toolkit.Pimsm.Update.{Source, GroupEntry, Update, update_summary}
use pimc_toolkit.Packets.Writer.{
  PacketWriter, writer_at, size, mark, next, emit, bytes16, htons, zeros,
}
use pimc_toolkit.Packets.Ipv4HdrWriter
use pimc_toolkit.Packets.Pim.{
  write_hdr, write_chk_sum, write_ipv4_jp_hdr, write_ipv4_grp, write_ipv4_src, message_join_prune,
}

-- `for (auto const& s: ...) pimsmv2::writeIPv4Src(...)`
unfoldable pub write_sources : List Source → PacketWriter → Run PacketWriter
unfolding write_ipv4_src
write_sources [] pw = done pw
write_sources (s ∷ rest) pw = write_ipv4_src pw s.addr s.rpt s.wildcard >>= write_sources rest

unfoldable pub write_group_entry : GroupEntry → PacketWriter → Run PacketWriter
unfolding write_ipv4_grp emit write_sources
write_group_entry ge pw = do
  pw1 ← write_ipv4_grp pw ge.group
  pw2 ← emit pw1 2 (bytes16 (htons (length ge.joins % 2 ^ 16)))
  pw3 ← emit pw2 2 (bytes16 (htons (length ge.prunes % 2 ^ 16)))
  pw4 ← write_sources ge.joins pw3
  write_sources ge.prunes pw4

unfoldable pub write_group_entries : List GroupEntry → PacketWriter → Run PacketWriter
unfolding write_group_entry
write_group_entries [] pw = done pw
write_group_entries (ge ∷ rest) pw = write_group_entry ge pw >>= write_group_entries rest

-- `pimsm::params<IPv4>::AllPIMRouters`, and the constants of the system's headers.
abbrev pub all_pim_routers : IPv4Address
all_pim_routers = of_octets 224 0 0 13

abbrev pub ip_df : ℕ
ip_df = 0x4000

abbrev pub ipproto_pim : ℕ
ipproto_pim = 103

-- The IPv4 header, set by the setters in their order.
unfoldable pub write_ip_hdr : ℕ → IPv4Address → PacketWriter → Run PacketWriter
write_ip_hdr sz source pw = do
  let (p, pw0) = next pw Ipv4HdrWriter.hdr_size
  pw1 ← Ipv4HdrWriter.construct p pw0
  pw2 ← Ipv4HdrWriter.tos 192 p pw1
  pw3 ← Ipv4HdrWriter.total_len (htons (sz % 2 ^ 16)) p pw2
  pw4 ← Ipv4HdrWriter.id 0 p pw3
  pw5 ← Ipv4HdrWriter.flags_and_frag_off (htons ip_df) p pw4
  pw6 ← Ipv4HdrWriter.ttl 1 p pw5
  pw7 ← Ipv4HdrWriter.protocol ipproto_pim p pw6
  pw8 ← Ipv4HdrWriter.saddr (to_nl source) p pw7
  Ipv4HdrWriter.daddr (to_nl all_pim_routers) p pw8

-- The Join/Prune header and the state for each group.
unfoldable pub write_message : Update → IPv4Address → ℕ → PacketWriter → Run PacketWriter
write_message update neighbor holdtime pw = do
  pw1 ← write_hdr pw message_join_prune
  pw2 ← write_ipv4_jp_hdr pw1 neighbor (length update.groups % 2 ^ 8) holdtime
  write_group_entries update.groups pw2

-- The sanity check and the checksum: `pw` has written the packet, and `pim_pw` is the snapshot at the
-- message.
unfoldable pub check_and_sum : ℕ → ℕ → ℕ → PacketWriter → PacketWriter → Run (List ℕ)
check_and_sum base sz pim_sz pim_pw pw =
    let summed = write_chk_sum base (record pim_pw { memory = pw.memory }) pim_sz in
    if not (size pw == sz) then raised logic_error else summed >>= λ pw'. done pw'.memory

-- The bytes of the packet; `base` is the address at which the vector has its elements.
unfoldable pub update_packet : ℕ → Update → IPv4Address → IPv4Address → ℕ → Run (List ℕ)
update_packet base update source neighbor holdtime = do
  let pim_sz = (pim_jp_hdr_size + (update_summary 0 update).size) % 2 ^ 64
  let sz = (Ipv4HdrWriter.hdr_size + pim_sz) % 2 ^ 64
  pw0 ← write_ip_hdr sz source (writer_at (zeros sz) 0)
  pw ← write_message update neighbor holdtime pw0
  check_and_sum base sz pim_sz (mark pw0) pw
