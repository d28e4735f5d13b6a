-- ===== src/Tests.antt =====
-- Runs of the models at fixed inputs, and the properties applied to sample states.
mod Agent
mod Samples
mod Scopes
mod Shadow
mod Exact
mod Keys
mod Transfer
mod Batches
mod Builds
mod Certs
mod States
mod Reconcile
mod Rules
mod Replay
mod Selector
mod Components
