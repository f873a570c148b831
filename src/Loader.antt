-- ===== src/Loader.antt =====
-- The configuration loaders of apps/pimc/config, and lib/pimc/yaml below them.
pub mod Errors
pub mod Yaml
pub mod Addresses
pub mod GroupConfig
pub mod Multicast
pub mod Logging
pub mod Pimsm
pub mod Pimc
pub mod Document
