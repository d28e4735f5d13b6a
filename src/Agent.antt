-- ===== src/Agent.antt =====
-- The agent, crates/sozu-agent/src/lib.rs: delivers the requests of a batch over Sōzu's command
-- socket, and settles the refusals that leave nothing to do.
pub mod Generation
pub mod Messages
pub mod Repair
pub mod Channel
pub mod Settle
pub mod Apply
