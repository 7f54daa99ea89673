-- ===== src/Pairing.antt =====
-- Pairing codes, client tokens and devices: internal/catalog/sync_store.go.
mod Model
mod Store
mod Revocation
mod Redeeming
mod Tests
