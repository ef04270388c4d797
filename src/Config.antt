-- ===== src/Config.antt =====
-- crates/snell-config/src/lib.rs: from the text of a file to a checked configuration.
pub mod Error
pub mod Str
pub mod IniFile
pub mod Values
pub mod Files
