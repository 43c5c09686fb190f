-- ===== src/Retry.antt =====
-- internal/orchestrator/retry.go: the retry and timeout policy of a contract.
pub mod Policy
pub mod Delays
pub mod Outcome
pub mod Classify
mod Tests
