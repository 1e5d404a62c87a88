-- ===== src/Protocol.antt =====
-- crates/datum-protocol: the wire protocol between the gateway and the pool.
pub mod Frame
pub mod Opcodes
pub mod Obfuscation
pub mod Crypto
pub mod Handshake
pub mod Nonce
pub mod Session
pub mod Messages
pub mod Events
pub mod Client
pub mod MockPool
