-- ===== src/Saves.antt =====
-- The save repository: internal/catalog/save_store.go and internal/saves/repository.go.
pub mod Model
pub mod Queries
mod Streams
pub mod Revisions
pub mod Blobs
mod Push
mod Storing
mod Cases
mod Currency
mod Bounds
mod Safety
mod Advance
mod Tests
