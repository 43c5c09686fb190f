-- ===== src/Canonical.antt =====
-- internal/canonical: the canonical JSON form and its key order.
pub mod Order
