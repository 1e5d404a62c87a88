-- ===== src/Api.antt =====
-- crates/datum-api: the operator's HTTP API.
pub mod Digest
