-- ===== src/Bcodec.antt =====
-- Bencoding, src/bcodec.
pub mod Numbers
pub mod Node
pub mod Encoder
pub mod Decoder
pub mod Tree
pub mod Written
pub mod Lookup
pub mod Unterminated
mod Tests
