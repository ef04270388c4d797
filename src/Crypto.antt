-- ===== src/Crypto.antt =====
-- crates/snell-protocol/src/crypto/: the ciphers, keys and random bytes of the codecs.
pub mod Entropy
pub mod Aead
