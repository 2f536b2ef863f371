-- ===== src/ConstraintSolver.antt =====
-- packages/constraint-solver: constraints from a graph, their mandatory closure, and the selection.
pub mod Semantics
pub mod Constraints
pub mod Graph
pub mod Derive
pub mod DeriveAll
pub mod Closure
pub mod Blockers
pub mod Order
pub mod Evaluate
pub mod Core
pub mod Solve
mod Examples
