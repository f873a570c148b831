-- ===== src/Core.antt =====
-- lib/pimc/core: results and optional values.
pub mod Result
pub mod Order
pub mod Optional
mod Examples
