-- ===== src/Pimsm/SanityCheck.antt =====
-- apps/pimc/pimsm/SanityCheckUtils.hpp, and the two verifiers of packed updates that use it.
pub mod Sets
pub mod Maps
pub mod Errors
pub mod Convert
pub mod Compare
pub mod Totals
pub mod Adding
pub mod Invariant
pub mod Measures
pub mod Verdict
pub mod Verify
pub mod Sound
pub mod Inverse
mod Examples
