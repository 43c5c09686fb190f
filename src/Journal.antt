-- ===== src/Journal.antt =====
-- The run journal: internal/runjournal and the journal writers of internal/orchestrator.
-- `Data` has the records, `Read` the reader's checks, `Marks` the writers and `Terminate`.
pub mod Data
pub mod Read
pub mod Terminate
pub mod TerminatedEntries
pub mod Terminated
pub mod Marks
pub mod Attempts
pub mod Steps
pub mod MapMarks
pub mod MapFailed
mod Tests
