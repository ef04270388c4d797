-- ===== src/Kernel.antt =====
-- crates/snell-protocol/src/error.rs, parse.rs and the constants of lib.rs.
pub mod Error
pub mod Consts
pub mod Slice
pub mod Incremental
pub mod Utf8
pub mod Bits
