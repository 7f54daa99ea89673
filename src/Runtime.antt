-- ===== src/Runtime.antt =====
-- The resolution of a launch: internal/runtimecfg and what it uses of internal/catalog.
pub mod Names
mod Artifacts
pub mod Arguments
mod Selection
mod Variables
mod Resolver
mod Resolving
mod Tests
