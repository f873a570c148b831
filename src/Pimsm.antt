-- ===== src/Pimsm.antt =====
-- apps/pimc/pimsm and apps/pimc/config/JPConfig.hpp: Join/Prune configuration and updates.
pub mod Params
pub mod Config
pub mod Update
pub mod GroupEntryBuilder
pub mod UpdateBuilder
pub mod Cursor
pub mod Pack
pub mod InversePack
pub mod SanityCheck
