-- ===== src/Params.antt =====
-- internal/valueparam/valueparam.go: workflow values as parameters of a task scheduler.
pub mod Codec
pub mod Decoded
pub mod RoundTrip
pub mod Encoded
pub mod ReadBack
pub mod Merge
pub mod MergeBounds
pub mod Envelope
pub mod Items
pub mod CollectItems
pub mod Panics
pub mod Carried
pub mod Settled
pub mod Outcomes
pub mod ItemLaws
pub mod ItemBack
pub mod ItemRoundTrip
mod Tests
mod ItemTests
