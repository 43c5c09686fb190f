-- ===== src/Artifact.antt =====
-- internal/artifact/runtime.go: immutable artifacts, published body first and manifest last.
pub mod Identity
pub mod Publish
pub mod Resolve
pub mod Slots
pub mod Immutable
pub mod Commit
pub mod ManifestLast
pub mod SlotNames
pub mod SlotsDistinct
pub mod SameProducer
pub mod Integrity
mod Tests
pub mod Keeps
pub mod Steps
pub mod RoundTrip
mod RoundTripTests
