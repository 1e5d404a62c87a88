-- ===== src/Examples.antt =====
-- The theorems at concrete inputs.
pub mod Wire
pub mod Sessions
pub mod Pool
pub mod Blocks
pub mod Shares
pub mod Emits
pub mod Connections
pub mod Channels
pub mod Configs
pub mod Greetings
pub mod Tasks
pub mod Nodes
pub mod Registries
