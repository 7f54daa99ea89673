-- ===== src/Sync.antt =====
-- Sync sessions: internal/catalog/sync_session_store.go and the plan of internal/server/sync_api.go.
mod Model
mod Operations
mod Progress
mod Plan
mod Planning
mod Creation
mod Keeping
mod Idempotence
mod Tests
