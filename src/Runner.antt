-- ===== src/Runner.antt =====
-- internal/orchestrator: how the local runner executes the nodes of a plan.
pub mod StepLoop
pub mod StepInvariant
pub mod StepMoves
pub mod StepRound
pub mod StepJournal
pub mod Inputs
pub mod Routes
pub mod Activation
pub mod Branches
pub mod Merges
pub mod Control
pub mod MapOutcomes
pub mod Gate
pub mod GateJournal
pub mod GateRecord
pub mod GateRecords
mod Tests
mod ResolveTests
