-- ===== src/QueryEngine/Degrade.antt =====
-- packages/query-engine/src/degrade.ts. A cost is that of the budget's model, since the two
-- functions of the source are the same; `+=` of a difference is an addition before a subtraction.
pub mod Laws
pub mod Loads
pub mod Spent
use prime_system.Base.{
  ℕ, zero, ◌+◌, ◌-◌, String, string_eq, ◌==◌, Bool, true, false, not, ◌||◌, List, [], ◌∷◌, ◌++◌,
  Option, none, some, if◌then◌else◌, filter, find, any, leb, eqb, map, length,
}
use prime_system.Base.Maps.{get, set}
use prime_system.QueryEngine.Budget.{ProjectionAssignment, cost_of}

pub data BudgetState : Type 0 where
  within_budget degraded_to_fit exceeded_at_cheapest : BudgetState

pub record BudgetHandoff : Type 0 where
  pub state : BudgetState
  pub max_tokens : ℕ
  pub consumed_tokens : ℕ
  pub shortfall : ℕ
  pub base_projection : String
  pub preferred_projection : String

pub record ProjectionLoad : Type 0 where
  pub projection_ref : String
  pub unit_ids : List String

pub data DegradeNote : Type 0 where
  exceeded_note : (units consumed max_tokens : ℕ) → (cheapest : String) → DegradeNote
  degraded_note : (max_tokens consumed : ℕ) → (preferred : String) → DegradeNote

pub record DegradationResult : Type 0 where
  pub assignments : List ProjectionAssignment
  pub projection_loads : List ProjectionLoad
  pub handoff : BudgetHandoff
  pub diagnostics : List DegradeNote

pub data DegradeError : Type 0 where
  budget_invalid : ℕ → DegradeError
  chain_empty : DegradeError
  not_declared : List String → DegradeError

pub data Degraded : Type 0 where
  degraded : DegradationResult → Degraded
  failed : DegradeError → Degraded

-- `new Map(ordered.map(unitId => [unitId, base]))`
abbrev pub assign_all : String → List String → List (String × String) → List (String × String)
assign_all base [] m = m
assign_all base (u ∷ us) m = assign_all base us (set u base m)

-- `assigned.get(unitId)!`: every unit of the order is a key.
abbrev pub current : List (String × String) → String → String
current m u = elim (get u m) [ none ↦ "" | some ref ↦ ref ]

-- `chain.slice(0, chain.indexOf(base))`
abbrev pub richer_than : String → List String → List String
richer_than base [] = []
richer_than base (ref ∷ refs) =
    let rest = richer_than base refs in if ref == base then [] else ref ∷ rest

abbrev pub last_of : String → List String → String
last_of ref [] = ref
last_of ref (r ∷ rs) = last_of r rs

abbrev pub new_load : String → String → ProjectionLoad
new_load u ref = record { projection_ref = ref; unit_ids = u ∷ [] }

-- One unit of `groupLoads`: the last load takes it if its tier is the same.
unfoldable pub add_load : String → String → List ProjectionLoad → List ProjectionLoad
add_load u ref [] = new_load u ref ∷ []
add_load u ref (l ∷ []) =
    if l.projection_ref == ref
    then record { projection_ref = ref; unit_ids = l.unit_ids ++ u ∷ [] } ∷ []
    else l ∷ new_load u ref ∷ []
add_load u ref (l ∷ l' ∷ ls) = l ∷ add_load u ref (l' ∷ ls)

unfoldable pub group_from :
    List (String × String) → List String → List ProjectionLoad → List ProjectionLoad
group_from m [] loads = loads
group_from m (u ∷ us) loads = group_from m us (add_load u (current m u) loads)

-- `groupLoads`
unfoldable pub group_loads : List String → List (String × String) → List ProjectionLoad
group_loads ordered m = group_from m ordered []

-- The variables of the upgrade pass.
pub record Upgrading : Type 0 where
  pub assigned : List (String × String)
  pub consumed : ℕ

module _ (token_cost : String → String → Option ℕ) (projections : List (String × ℕ)) where
  abbrev pub cost : String → String → ℕ
  cost = cost_of token_cost projections

  unfoldable pub total_at : List String → String → ℕ
  total_at [] ref = 0
  total_at (u ∷ us) ref = cost u ref + total_at us ref

  -- `delta <= 0 || consumed + delta <= maxTokens`
  abbrev pub affords : ℕ → Upgrading → String → String → Bool
  affords max_tokens s u ref =
      leb (cost u ref) (cost u (current s.assigned u))
      || leb (s.consumed + cost u ref) (max_tokens + cost u (current s.assigned u))

  abbrev pub take_up : Upgrading → String → Option String → Upgrading
  take_up s u none = s
  take_up s u (some ref) = record {
    assigned = set u ref s.assigned;
    consumed = s.consumed + cost u ref - cost u (current s.assigned u);
  }

  unfoldable pub upgrade_unit : ℕ → List String → String → Upgrading → Upgrading
  upgrade_unit max_tokens richer u s = take_up s u (find (affords max_tokens s u) richer)

  -- The upgrade pass, in load order.
  unfoldable pub upgrade : ℕ → List String → List String → Upgrading → Upgrading
  upgrade max_tokens richer [] s = s
  upgrade max_tokens richer (u ∷ us) s =
      upgrade max_tokens richer us (upgrade_unit max_tokens richer u s)

  abbrev pub assignment_in : List (String × String) → String → ProjectionAssignment
  assignment_in m u = record {
    unit_id = u;
    projection_ref = current m u;
    tokens = cost u (current m u);
  }

  abbrev pub assignment_at : String → String → ProjectionAssignment
  assignment_at ref u = record { unit_id = u; projection_ref = ref; tokens = cost u ref }

  abbrev pub is_degraded : List (String × String) → String → List String → Bool
  is_degraded m preferred ordered = any (λ u. not (current m u == preferred)) ordered

  abbrev pub handoff_of : BudgetState → ℕ → ℕ → ℕ → String → String → BudgetHandoff
  handoff_of state max_tokens consumed shortfall base preferred = record {
    state = state;
    max_tokens = max_tokens;
    consumed_tokens = consumed;
    shortfall = shortfall;
    base_projection = base;
    preferred_projection = preferred;
  }

  -- No tier fits: every unit at the cheapest one.
  unfoldable pub exceeded : ℕ → String → String → List String → DegradationResult
  exceeded max_tokens preferred cheapest ordered =
      let m = assign_all cheapest ordered [] in
      let consumed = total_at ordered cheapest in
      record {
        assignments = map (assignment_at cheapest) ordered;
        projection_loads = group_loads ordered m;
        handoff =
            handoff_of exceeded_at_cheapest max_tokens consumed (consumed - max_tokens) cheapest
              preferred;
        diagnostics = exceeded_note (length ordered) consumed max_tokens cheapest ∷ [];
      }

  -- A tier fits: the units are upgraded from it.
  unfoldable pub fitted : ℕ → String → List String → String → List String → DegradationResult
  fitted max_tokens preferred chain base ordered =
      let s =
        upgrade max_tokens (richer_than base chain) ordered
          (record { assigned = assign_all base ordered []; consumed = total_at ordered base }) in
      let cheaper = is_degraded s.assigned preferred ordered in
      record {
        assignments = map (assignment_in s.assigned) ordered;
        projection_loads = group_loads ordered s.assigned;
        handoff =
            handoff_of (if cheaper then degraded_to_fit else within_budget) max_tokens s.consumed 0
              base preferred;
        diagnostics = if cheaper then degraded_note max_tokens s.consumed preferred ∷ [] else [];
      }

  unfoldable pub degrade_checked : ℕ → String → List String → List String → DegradationResult
  degrade_checked max_tokens preferred refs [] = record {
    assignments = [];
    projection_loads = [];
    handoff = handoff_of within_budget max_tokens 0 0 preferred preferred;
    diagnostics = [];
  }
  degrade_checked max_tokens preferred refs (u ∷ us) =
      elim (find (λ ref. leb (total_at (u ∷ us) ref) max_tokens) (preferred ∷ refs)) [
        | none ↦ exceeded max_tokens preferred (last_of preferred refs) (u ∷ us)
        | some base ↦ fitted max_tokens preferred (preferred ∷ refs) base (u ∷ us)
      ]

  abbrev pub undeclared : List String → List String
  undeclared chain =
      filter (λ ref. elim (get ref projections) [ none ↦ true | some n ↦ false ]) chain

  abbrev pub degrade_chain : ℕ → List String → List String → Degraded
  degrade_chain max_tokens [] ordered = failed chain_empty
  degrade_chain max_tokens (preferred ∷ refs) ordered = elim (undeclared (preferred ∷ refs)) [
    | ref ∷ unknown ↦ failed (not_declared (ref ∷ unknown))
    | [] ↦ degraded (degrade_checked max_tokens preferred refs ordered)
  ]

  -- `degradeToFit`
  unfoldable pub degrade_to_fit : List String → List String → ℕ → Degraded
  degrade_to_fit ordered chain max_tokens =
      if eqb max_tokens 0
      then failed (budget_invalid max_tokens)
      else degrade_chain max_tokens chain ordered
