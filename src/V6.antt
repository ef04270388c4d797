-- ===== src/V6.antt =====
-- The record codecs of crates/snell-protocol/src/codec/v6.
pub mod Unshaped
