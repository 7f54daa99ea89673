-- ===== src/Bundler.antt =====
-- Packages for devices: internal/bundler.
pub mod Files
pub mod Model
mod Targets
mod Recovery
mod Device
mod Collisions
mod Rollback
mod Snapshot
mod Ownership
mod Additions
mod References
mod Tests
