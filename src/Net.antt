-- ===== src/Net.antt =====
-- lib/pimc/net: addresses and prefixes.
pub mod Address
pub mod Bits
pub mod Mask
pub mod Prefix
pub mod IntfTable
mod Examples
