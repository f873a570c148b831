-- ===== src/Parsers/Signed.antt =====
-- The signed half of lib/pimc/parsers/NumberParsers.hpp: the parsers, what they answer within the
-- limits, and what becomes of the least value of a type.
pub mod Defs
pub mod Laws
pub mod Minimum
mod Examples
