-- ===== src/Packets.antt =====
-- Packets: the writer and the header utilities of lib/pimc/packets, and the Join/Prune packet of
-- apps/pimc/packets.
pub mod Writer
pub mod Checksum
pub mod Ipv4HdrWriter
pub mod Pim
pub mod Encoding
pub mod UpdatePacket
pub mod Written
pub mod Bytes
pub mod Sealed
pub mod Packet
pub mod HelloPacket
pub mod Packed
pub mod Decode
pub mod Views
pub mod Ipv4HdrView
pub mod UdpHdrView
mod Examples
