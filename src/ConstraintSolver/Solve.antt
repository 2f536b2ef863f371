-- ===== src/ConstraintSolver/Solve.antt =====
-- `solve` of packages/constraint-solver/src/solve.ts. The request id, the snapshot and the query are
-- handed through by the source and are left out. Costs and weights are natural numbers.
pub mod Candidates
pub mod Loop
pub mod Outcome
