-- ===== src/V4.antt =====
-- crates/snell-protocol/src/codec/v4/: the record codec of v4.
pub mod Padding
pub mod Swap
pub mod Encoder
pub mod Decoder
pub mod Wire
pub mod Session
