-- ===== src/Packets/Packed.antt =====
-- The packer and the packets together: apps/pimc sends one packet for each update that `pack` returns.
use pimc_toolkit.Common.{ℕ, ◌≡◌, List, [], ◌∷◌, All, done}
use pimc_toolkit.Net.Address.{IPv4Address}
use pimc_toolkit.Pimsm.Config.{JpConfig}
use pimc_toolkit.Pimsm.Update.{Update}
use pimc_toolkit.Pimsm.Pack.{pack}
use pimc_toolkit.Pimsm.Pack.Search.{PrunesFit}
use pimc_toolkit.Pimsm.Pack.Correct.{Fits, pack_total}
use pimc_toolkit.Packets.Packet.{IsRightPacket, update_packet_exact}

All-packets :
    (base : ℕ) (source neighbor : IPv4Address) (holdtime : ℕ) (us : List Update)
    → All Fits us
    → All (λ u. IsRightPacket base u source neighbor holdtime) us
All-packets base source neighbor holdtime [] h = tt
All-packets base source neighbor holdtime (u ∷ us) h = (
  update_packet_exact base u source neighbor holdtime h.0,
  All-packets base source neighbor holdtime us h.1,
)

-- Where no group has an RPT with more than 180 pruned sources, packing returns updates each of
-- which makes a packet of at most 1500 bytes whose size is the one computed beforehand and whose
-- message has a checksum that verifies.
pub pack_packets :
    (base : ℕ) (source neighbor : IPv4Address) (holdtime : ℕ) (cfg : JpConfig)
    → All (λ ge. PrunesFit ge.rpt) cfg.groups
    → (us : List Update) × (pack cfg ≡ done us)
      × All (λ u. IsRightPacket base u source neighbor holdtime) us
pack_packets base source neighbor holdtime cfg fit =
    let (us, e, fits) = pack_total cfg fit in
    (us, e, All-packets base source neighbor holdtime us fits)
