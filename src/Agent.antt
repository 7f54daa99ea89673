-- ===== src/Agent.antt =====
-- The agent on a device: internal/deviceagent/sync.go.
pub mod Model
pub mod LocalSets
mod Download
mod Install
mod Loop
mod Recoverable
mod Budget
mod Agreement
mod Retrying
mod Tests
