-- ===== src/Parsers.antt =====
-- lib/pimc/parsers: numbers, addresses and prefixes from text. A text is the list of its bytes.
pub mod Chars
pub mod Unsigned
pub mod Signed
pub mod Ipv4
