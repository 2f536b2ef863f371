-- ===== src/QueryEngine.antt =====
-- packages/query-engine: admission and the token budget of a plan.
pub mod Budget
pub mod Degrade
pub mod Admission
mod Examples
