-- ===== src/Mclst.antt =====
-- apps/mclst: the multicast receiver and sender.
pub mod PacketInfo
pub mod Beacon
pub mod Receiver
pub mod Sender
pub mod RxStats
pub mod Transfer
pub mod ReceiveLoop
mod Examples
