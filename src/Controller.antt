-- ===== src/Controller.antt =====
-- The controller, crates/controller/src.
pub mod Shadow
pub mod Scope
