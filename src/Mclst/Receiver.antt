-- ===== src/Mclst/Receiver.antt =====
-- `processPacket` of apps/mclst/Receiver.hpp and of apps/mclst/IPRawReceiver.hpp. A packet's
-- information comes back with the status and with the warnings written.
pub mod Within
pub mod Datagram
use pimc_toolkit.Common.{
  ℕ, ◌+◌, ◌-◌, ◌++◌, not, ltb, ◌==◌, if◌then◌else◌, List, [], ◌∷◌, none, some, Run, done, ◌>>=◌,
  sub64,
}
use pimc_toolkit.Common.Int.{pos, eqℤ}
use pimc_toolkit.Net.Address.{IPv4Address, from_nl, to_nl}
use pimc_toolkit.Packets.Writer.{htons}
use pimc_toolkit.Packets.Views.{PacketView, view_of, take_bytes, skip, remaining, read16, read32}
use pimc_toolkit.Packets.Ipv4HdrView
use pimc_toolkit.Packets.UdpHdrView
use pimc_toolkit.Mclst.PacketInfo.{
  PacketInfo, PacketStatus, filtered, accepted_no_show, accepted_show, Warning, short_ip_header,
  corrupted_ip_header, short_ip_options, short_headers, other_ttl, short_udp_size, large_udp_size,
  small_udp_size,
}
use pimc_toolkit.Mclst.Beacon.{dissect_mclst_beacon_payload}

pub record Processed : Type 0 where
  pub status : PacketStatus
  pub info : PacketInfo
  pub warnings : List Warning

abbrev processed : PacketStatus → PacketInfo → List Warning → Run Processed
processed status info warnings = done (record { status = status; info = info; warnings = warnings })

-- The payload is dissected, and the packet is shown.
unfoldable pub accept : PacketInfo → List Warning → Run Processed
unfolding dissect_mclst_beacon_payload
accept info warnings = do
  (dissected, more) ← dissect_mclst_beacon_payload info
  processed accepted_show dissected (warnings ++ more)

-- The receiver on a UDP socket, for the port of the configuration and the sender's address and port
-- in the network byte order.
unfoldable pub process_udp : ℕ → ℕ → ℕ → PacketInfo → Run Processed
unfolding accept
process_udp dport s_addr sin_port info =
    accept
      (record info {
        dport = dport;
        source = from_nl s_addr;
        sport = htons sin_port;
        payload = 0;
        payload_size = info.received_size;
      })
      []

-- The raw receiver behind both headers: the payload of the UDP packet, by the size of its header.
unfoldable pub process_payload : PacketView → ℕ → PacketInfo → List Warning → Run Processed
unfolding accept
process_payload pv udp_size info warnings =
    let size = udp_size - UdpHdrView.hdr_size in
    let rem = remaining pv in
    if ltb udp_size UdpHdrView.hdr_size
    then processed accepted_no_show info (warnings ++ (short_udp_size udp_size ∷ []))
    else if ltb rem size
    then processed accepted_no_show info (warnings ++ (large_udp_size size rem ∷ []))
    else accept (record info { payload = pv.taken; payload_size = size })
        (warnings ++ (if ltb size rem then small_udp_size size rem ∷ [] else []))

-- A TTL other than that of the control message is taken from the IPv4 header.
abbrev pub override_ttl : ℕ → PacketInfo → PacketInfo × List Warning
override_ttl ip_ttl info =
    if not (eqℤ info.ttl ip_ttl)
    then (record info { ttl = pos ip_ttl }, other_ttl info.ttl ip_ttl ∷ [])
    else (info, [])

-- The raw receiver where both headers are there, at offsets `ip` and `udp`.
unfoldable pub process_headers : ℕ → ℕ → PacketView → PacketInfo → Run Processed
unfolding read16 read32 process_payload
process_headers ip udp pv info = do
  saddr ← Ipv4HdrView.saddr ip info.received_data
  sport ← UdpHdrView.sport udp info.received_data
  dport ← UdpHdrView.dport udp info.received_data
  ip_ttl ← Ipv4HdrView.ttl ip info.received_data
  udp_size ← UdpHdrView.datagram_len udp info.received_data
  let (addressed, warnings) =
      override_ttl ip_ttl
        (record info { source = from_nl saddr; sport = htons sport; dport = htons dport })
  process_payload pv (htons udp_size) addressed warnings

-- The raw receiver where the packet is one of the group's UDP packets.
unfoldable pub process_udp_datagram : ℕ → PacketView → PacketInfo → Run Processed
unfolding take_bytes skip process_headers
process_udp_datagram ip pv info = do
  ip_size ← Ipv4HdrView.header_size_bytes ip info.received_data
  if ltb ip_size Ipv4HdrView.hdr_size
      then processed accepted_no_show info (corrupted_ip_header ip_size ∷ [])
      else elim (skip (sub64 ip_size Ipv4HdrView.hdr_size) pv) [
        | none ↦
            processed accepted_no_show info
              (short_ip_options info.received_size Ipv4HdrView.hdr_size ∷ [])
        | some behind ↦ elim (take_bytes UdpHdrView.hdr_size behind) [
          | none ↦
              processed accepted_no_show info
                (short_headers info.received_size ip_size (ip_size + UdpHdrView.hdr_size) ∷ [])
          | some r ↦ process_headers ip r.0 r.1 info
        ]
      ]

-- The raw receiver, for the group of the configuration.
unfoldable pub process_raw : IPv4Address → PacketInfo → Run Processed
unfolding read32 take_bytes process_udp_datagram
process_raw group info = elim (take_bytes Ipv4HdrView.hdr_size (view_of 0 info.received_size)) [
  | none ↦ processed filtered info (short_ip_header info.received_size ∷ [])
  | some r ↦ do
    daddr ← Ipv4HdrView.daddr r.0 info.received_data
    protocol ← Ipv4HdrView.protocol r.0 info.received_data
    if not (daddr == to_nl group)
        then processed filtered info []
        else if not (protocol == UdpHdrView.udp_proto)
        then processed filtered info []
        else process_udp_datagram r.0 r.1 info
]
