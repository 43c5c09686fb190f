-- ===== src/MapExec.antt =====
-- internal/mapexec/values.go: the value semantics of a finite map.
pub mod Failure
pub mod Collect
pub mod Order
pub mod Complete
pub mod Sound
mod Tests
