-- ===== src/V6/Unshaped.antt =====
-- `V6UnshapedEncoder` and `V6UnshapedDecoder` of crates/snell-protocol/src/codec/v6/unshaped.rs.
pub mod Encoder
pub mod Decoder
