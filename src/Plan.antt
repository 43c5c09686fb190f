-- ===== src/Plan.antt =====
-- internal/plan: the workflow graph and the compiler's schedule.
pub mod Graph
pub mod Schedule
pub mod PlanOrder
pub mod PlanOrderSorted
mod Tests
