-- ===== src/QueryEngine/Budget/Laws.antt =====
-- planBudget of packages/query-engine/src/budget.ts.
use prime_system.Base.{ℕ, ◌+◌, ◌≤◌, ◌≡◌, List, [], ◌∷◌, length}
use prime_system.QueryEngine.Budget.{ProjectionAssignment, BudgetResult}

abbrev pub total : List ProjectionAssignment → ℕ
total [] = 0
total (a ∷ rest) = a.tokens + total rest

-- The books are right: the sum is the sum, it fits, and `n` units are accounted for.
pub record IsBalanced (max_tokens n : ℕ) (r : BudgetResult) : Type 0 where
  pub sums : total r.assignments ≡ r.consumed_tokens
  pub fits : r.consumed_tokens ≤ max_tokens
  pub accounts : length r.assignments + length r.rejections ≡ n
