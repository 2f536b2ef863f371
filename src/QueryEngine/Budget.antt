-- ===== src/QueryEngine/Budget.antt =====
-- packages/query-engine/src/budget.ts. A projection's declaration is its `targetTokens`; the cost
-- model of the host is a parameter.
pub mod Placed
pub mod Laws
use prime_system.Base.{
  ℕ, zero, suc, ◌+◌, ◌-◌, String, Bool, true, false, List, [], ◌∷◌, ◌++◌, Option, none, some,
  if◌then◌else◌, filter, find, leb, ltb, map, unique, not, eqb, string_eq,
}
use prime_system.Base.Maps.{get}

pub record ProjectionAssignment : Type 0 where
  pub unit_id : String
  pub projection_ref : String
  pub tokens : ℕ

-- What the two reasons of a rejection say: the cheapest projection, what is left, and all costs.
pub record BudgetRejection : Type 0 where
  pub unit_id : String
  pub cheapest : String × ℕ
  pub remaining : ℕ
  pub considered : List (String × ℕ)

pub record BudgetResult : Type 0 where
  pub assignments : List ProjectionAssignment
  pub rejections : List BudgetRejection
  pub consumed_tokens : ℕ

pub data BudgetError : Type 0 where
  projection_not_declared : (unknown : List String) → BudgetError
  budget_invalid : ℕ → BudgetError
  -- `costs[0]!.tokens` where the chain is empty.
  no_costs : BudgetError

pub data Planned (A : Type 0) : Type 0 where
  planned : A → Planned A
  failed : BudgetError → Planned A

abbrev is_none : Option ℕ → Bool
is_none none = true
is_none (some n) = false

-- `resolveProjectionChain`
unfoldable pub resolve_projection_chain :
    String → List String → List (String × ℕ) → Planned (List String)
resolve_projection_chain primary fallbacks projections =
    let chain = unique (primary ∷ fallbacks) in
    elim (filter (λ ref. is_none (get ref projections)) chain) [
      | [] ↦ planned chain
      | ref ∷ refs ↦ failed (projection_not_declared (ref ∷ refs))
    ]

abbrev or_zero : Option ℕ → ℕ
or_zero none = 0
or_zero (some n) = n

abbrev measured_or : Option ℕ → ℕ → ℕ
measured_or none n = n
measured_or (some m) n = m

-- `costs.reduce((min, entry) => entry.tokens < min.tokens ? entry : min, costs[0])`
unfoldable pub cheapest_from : String × ℕ → List (String × ℕ) → String × ℕ
cheapest_from least [] = least
cheapest_from least (entry ∷ entries) =
    let this = cheapest_from entry entries in
    let that = cheapest_from least entries in if ltb entry.1 least.1 then this else that

abbrev pub assignment_of : String → String × ℕ → ProjectionAssignment
assignment_of unit_id fitting = record {
  unit_id = unit_id;
  projection_ref = fitting.0;
  tokens = fitting.1;
}

abbrev pub rejection_of :
    ℕ → String → String × ℕ → List (String × ℕ) → BudgetResult → BudgetRejection
rejection_of max_tokens unit_id cost costs r = record {
  unit_id = unit_id;
  cheapest = cheapest_from cost (cost ∷ costs);
  remaining = max_tokens - r.consumed_tokens;
  considered = cost ∷ costs;
}

abbrev pub no_result : BudgetResult
no_result = record { assignments = []; rejections = []; consumed_tokens = 0 }

-- One unit: the projection of the chain that fits, or a rejection with its arithmetic.
unfoldable pub settle :
    ℕ → String → String × ℕ → List (String × ℕ) → BudgetResult → Option (String × ℕ) → BudgetResult
settle max_tokens unit_id cost costs r (some fitting) = record {
  assignments = r.assignments ++ assignment_of unit_id fitting ∷ [];
  rejections = r.rejections;
  consumed_tokens = r.consumed_tokens + fitting.1;
}
settle max_tokens unit_id cost costs r none = record {
  assignments = r.assignments;
  rejections = r.rejections ++ rejection_of max_tokens unit_id cost costs r ∷ [];
  consumed_tokens = r.consumed_tokens;
}

unfoldable pub place : ℕ → String → List (String × ℕ) → BudgetResult → Option BudgetResult
place max_tokens unit_id [] r = none
place max_tokens unit_id (cost ∷ costs) r = some (
    settle max_tokens unit_id cost costs r
      (find (λ (entry : String × ℕ). leb entry.1 (max_tokens - r.consumed_tokens)) (cost ∷ costs)))

module _ (token_cost : String → String → Option ℕ) (projections : List (String × ℕ)) where
  -- `costOf`; the chain was resolved, so every reference is declared.
  unfoldable pub cost_of : String → String → ℕ
  cost_of unit_id projection_ref =
      measured_or (token_cost unit_id projection_ref) (or_zero (get projection_ref projections))

  -- The loop over the units in load order.
  unfoldable pub place_all : ℕ → List String → List String → BudgetResult → Option BudgetResult
  place_all max_tokens chain [] r = some r
  place_all max_tokens chain (unit_id ∷ ordered) r =
      elim (place max_tokens unit_id (map (λ ref. (ref, cost_of unit_id ref)) chain) r) [
        | none ↦ none
        | some next ↦ place_all max_tokens chain ordered next
      ]

  abbrev or_no_costs : Option BudgetResult → Planned BudgetResult
  or_no_costs none = failed no_costs
  or_no_costs (some r) = planned r

  unfoldable pub plan_budget : List String → List String → ℕ → Planned BudgetResult
  plan_budget ordered chain max_tokens =
      if eqb max_tokens 0
      then failed (budget_invalid max_tokens)
      else or_no_costs (place_all max_tokens chain ordered no_result)
