-- ===== src/Sv2.antt =====
-- crates/datum-stratum-sv2: the difficulty of a channel, its target, and the shares that come by it.
pub mod Vardiff
pub mod Targets
pub mod Shares
pub mod Setup
pub mod Store
pub mod Registry
pub mod Channels
pub mod Listener
