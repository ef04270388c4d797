-- ===== src/Tests.antt =====
-- Runs of the definitions and of the theorems at concrete inputs.
mod HexText
mod Buffer
mod Replay
mod Pool
mod Client
mod Codec
mod Control
mod Socks5
mod Salt
mod Kdf
mod V4
mod V6
mod Outbound
mod BufferPool
mod Config
