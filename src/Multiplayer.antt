-- ===== src/Multiplayer.antt =====
-- internal/multiplayer/broker.go: sessions that are kept in memory and expire.
-- `Model` has the data, `Input` the normalisation and validation, `Broker` the operations.
pub mod Model
pub mod Input
pub mod Broker
mod Cases
pub mod Compatibility
pub mod Joining
mod Rejoining
pub mod Invariant
pub mod Lifetime
pub mod Expiry
pub mod Tests
