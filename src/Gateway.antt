-- ===== src/Gateway.antt =====
-- crates/datum-bin/src/main.rs: the tasks of the gateway that join the components. A watch channel is the
-- value that it holds, a task is the function from what it reads to what it sends.
pub mod Upstream
pub mod Jobs
