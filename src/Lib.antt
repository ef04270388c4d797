-- ===== src/Lib.antt =====
-- A development beside snell-rs, a client and server of the Snell proxy protocol.
--
-- The program. A client takes SOCKS5 connections (crates/snell-runtime/src/client/socks.rs, with the
-- messages of crates/snell-protocol/src/socks5.rs) and carries each to the server over an encrypted
-- stream of records. The first record holds a control message: CONNECT, or the setup of a UDP relay
-- (crates/snell-protocol/src/control). Finished connections go to a pool of the client
-- (crates/snell-runtime/src/client/pool.rs), and the server refuses salts that it has seen
-- (crates/snell-runtime/src/replay.rs). Both programs read their settings from a file of sections
-- (crates/snell-config/src/lib.rs).
--
-- The model. A byte is a number, and a slice a list of them. A call of the protocol returns a `Result`
-- of crates/snell-protocol/src/error.rs, which besides a value and an error has a third case, a panic:
-- an index, a range or a `copy_from_slice` that Rust would abort on. So a theorem that a call returns
-- also says that its indices are in range. A function that writes through a slice returns the new
-- content of the slice. Lengths are natural numbers with no bound: a sum of the length of a buffer and
-- of a few bytes is far from 2 ^ 64, and the two saturating operations of the chunk window are written
-- out. A conversion to a byte or to sixteen bits keeps its remainder.
--
--   Prelude     tests, lists and sets that the other files share
--   Kernel      error.rs, parse.rs and the constants of lib.rs of crates/snell-protocol/src, with Rust's
--               slices and UTF-8. Kernel.Incremental is the interface between the parsers and the loops
--               that read a stream: a parser asks for more until a message is whole, for no byte behind
--               it, and does not take back what it has said
--   Address     address.rs: the address layouts that the two families of messages share
--   Socks5      socks5.rs. Field and Messages are about its parsers on bytes that arrive in pieces, Written
--               about its encoders, RoundTrip about both
--   Control     control/mod.rs, and control/stream.rs in Control.Stream, in the same way. Prefix,
--               Incremental and Assembly are about prefixes spread over records
--   Header      codec/header.rs
--   Buffer      buffer.rs. Invariant is about the live range, Stream about each call and Trace about
--               sequences of calls
--   Record      codec/record.rs and `RecordSize` of codec/mod.rs. Accounting is about records that are
--               decoded ahead, Reservation is the reservation of buffer.rs, with Cancel for its room
--               and its drop and Use for what the caller does with it
--   Crypto      crypto/aead.rs with `aead_key` of crypto/kdf.rs in Aead, and crypto/entropy.rs in Entropy
--   Nonce       crypto/nonce.rs
--   Chunk       codec/v4/chunk.rs
--   V4          codec/v4/mod.rs, the record codec of v4 and v5. Padding and Swap are about codec/v4/padding.rs.
--               Encoder seals records: Reserved, Written and Sealed follow one through its three steps, Send
--               through all of them, Failed is about errors, Dropped about a record
--               that is not sealed. Decoder opens records: Steps, Read, Returns and Ends are
--               about its rounds, Safe about its states. Wire is what a record is on the wire, and
--               Session about many records
--   V6          codec/v6/unshaped.rs in Unshaped, built as V4 is. Encoder.Plain relates its records to those of
--               v4, Encoder.Failed is about errors, and Decoder.Safe about the decoder's states
--   Salt        codec/v6/salt.rs, and the generators of codec/v6/prf.rs that it uses. Shuffle is
--               about its permutation, RoundTrip about writing and extracting
--   Replay      crates/snell-runtime/src/replay.rs. Queue is the abstract cache, Order and Refine
--               relate the code to it, NoReplay is about two offers of one salt
--   Kdf         crates/snell-runtime/src/kdf.rs, as a relation between states of the gate: a permit that comes
--               back goes to the first waiter, and each access of a call to a semaphore is a step
--   ReusePool   crates/snell-runtime/src/client/pool.rs
--   BufferPool  crates/snell-runtime/src/buffer.rs. Cache is about the queues, Leases and Calls about the calls,
--               Given about the first and the last of them, and Trace about sequences of calls
--   Session     crates/snell-runtime/src/error.rs
--   Client      crates/snell-runtime/src/client/socks.rs. Read is about the read loop with any
--               incremental parser, Accept about the whole of `accept_socks5`
--   Config      crates/snell-config/src/lib.rs. IniFile is its line parser, with Parsed for what it accepts and
--               Render for what it reads back, Values the parsers of values and Files the two configurations.
--               Str has the functions of std on texts
--   Outbound    `socks5_request` of crates/snell-runtime/src/server/outbound.rs, on the streams of Client.
--               Returned is about what it has done when it returns, Exchange about both ends of it
--   Tests       runs at concrete inputs
--
-- Functions have the names of the source. `Address` stands for `Address` and its view `AddressRef`,
-- `Greeting`, `Request`, `ReplyMessage` and `UdpPacket` for the `Ref` types. `addr_len` and
-- `addr_body` are the two matches of `parse_addr`; `reuse_of`, `check_host_len` and `destination_of`
-- are steps of `decode_connect_request_prefix`; `error_reply` and `tagged_ip` are arms of the matches
-- they are named for; `expire` and `evict` of Replay are the loop and the condition in `insert`;
-- `hold` is the constructor of a reservation and `drop_reservation` its drop; the functions with
-- `pending` in their names, `emit`, `data_at` and `zero_chunk_at` are the methods of `Pending`.
--
-- The uninitialised tail of a buffer is not in the model: what a caller writes there is an argument of
-- `commit` and `seal_init`. What an allocation holds is the argument of `new` and `replace_storage`.
--
-- Parameters. `IpText` is the text of IP addresses, which std prints and parses; theorems that need it
-- ask that an address is parsed back from its text and that the text is short. The encoder of a
-- reservation is the interface `Seal`, which the v4 and the v6 encoder fill. `Ring` is the cipher of
-- the crate ring and the password hash of the crate argon2, by key, nonce and bytes; `IsRing` are the
-- laws that theorems ask of it: sealing gives a tag, opening undoes it, and both keep lengths.
-- `Entropy` is the source of random bytes. `PaddingFill` is `fill_v4_padding`, which computes with
-- floats and which the round trip does not depend on: `IsFill` asks only that it succeeds and leaves
-- as many bytes as it was given. The parse of a socket address is an argument of the configuration,
-- where a text is the list of its code points. A clock's time and the probe of a socket are arguments
-- of a call, and so is the allocator that the pool of buffers asks. A mutex makes a call one step.
--
-- The steps of the decoder have names: `read_salt`, `read_header` and `read_body` are the arms of the
-- match in `decode`, `accept_header`, `open_header` and `open_body` what they go on with, `round_at`
-- the match and `go_on` the loop around it. `lay_out`, `put_salt`, `seal_header`, `seal_body`, `cover`
-- and `settle` are the pieces of `reserve`, `seal_record` and `finish`. `read_lines`, `read_line`,
-- `open_section`, `add_pair` and `push_pair` are the loop of `IniFile::parse` and its branches.
--
-- Fuel. The loops of the decoders have fuel for three rounds, a salt, a header and a body, after which
-- they have returned. The read loop of `accept_socks5` has fuel for one round more than its buffer has
-- bytes. Each round adds at least a byte, so that is enough.
--
-- Not modelled. The shaped and the raw record codec of v6 and the profile are not modelled, nor are
-- the sessions, the rest of the server and the UDP relay of the client. Sockets and name resolution
-- are calls of other code. Writing to a socket does not fail in the model.
pub mod Prelude
pub mod Kernel
pub mod Address
pub mod Socks5
pub mod Control
pub mod Header
pub mod Nonce
pub mod Chunk
pub mod Replay
pub mod ReusePool
pub mod Buffer
pub mod Record
pub mod Crypto
pub mod V4
pub mod V6
pub mod Salt
pub mod Kdf
pub mod BufferPool
pub mod Session
pub mod Client
pub mod Outbound
pub mod Config
pub mod Tests
