-- ===== src/Builder.antt =====
-- The builder, crates/builder/src.
pub mod Selector
pub mod Gateway
pub mod Routes
pub mod Ports
pub mod Admission
pub mod Certificates
