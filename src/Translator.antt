-- ===== src/Translator.antt =====
-- The translator from the intermediate representation to Sōzu's requests,
-- crates/translator/src/lib.rs.
pub mod Payloads
pub mod Errors
pub mod Layer4
pub mod Frontends
pub mod Tiers
pub mod References
pub mod Removals
pub mod Certificates
pub mod Reconcile
pub mod Replay
