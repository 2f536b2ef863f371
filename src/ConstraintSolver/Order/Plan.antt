-- ===== src/ConstraintSolver/Order/Plan.antt =====
-- planLoadOrder of packages/constraint-solver/src/order.ts. A position in the list of components is
-- given by the component's first member, which no other has.
use prime_system.Base.{
  ℕ, zero, suc, ◌+◌, ◌-◌, String, string_eq, ◌==◌, Bool, true, false, ◌&&◌, ◌||◌, List, [], ◌∷◌,
  ◌++◌, Option, none, some, if◌then◌else◌, includes, filter, find, map, unique, str_lt, length, ltb,
  eqb,
}
use prime_system.Base.Maps.{get, set}
use prime_system.Base.Sorting.{sort}
use prime_system.ConstraintSolver.Semantics.{CyclePolicy, allow, reject, collapse, Diagnostic}
use prime_system.ConstraintSolver.Constraints.{OrderingObligation}
use prime_system.ConstraintSolver.Derive.{info, fatal}
use prime_system.ConstraintSolver.Order.{
  UnitComponent, RejectedCycle, OrderResult, ordered, rejected, order_thrown,
}
use prime_system.ConstraintSolver.Order.Components.{
  and_then, obligation_lt, build_adjacency, strongly_connected_components, key_of,
}

-- POLICY_RANK
abbrev policy_rank : CyclePolicy → ℕ
policy_rank allow = 0
policy_rank collapse = 1
policy_rank reject = 2

abbrev worst_policy : CyclePolicy → List OrderingObligation → CyclePolicy
worst_policy worst [] = worst
worst_policy worst (o ∷ os) =
    worst_policy
      (if ltb (policy_rank worst) (policy_rank o.cycle_policy) then o.cycle_policy else worst) os

-- The key of the component that a unit is a member of.
abbrev owner : List (List String) → String → Option String
owner [] unit_id = none
owner (c ∷ cs) unit_id =
    let rest = owner cs unit_id in if includes c unit_id then some (key_of c) else rest

abbrev in_scope : List (List String) → OrderingObligation → Bool
in_scope cs o = elim (owner cs o.before) [
  | none ↦ false
  | some b ↦ elim (owner cs o.after) [ none ↦ false | some a ↦ true ]
]

abbrev same_owner : List (List String) → String → OrderingObligation → Bool
same_owner cs key o = elim (owner cs o.before) [
  | none ↦ false
  | some b ↦ elim (owner cs o.after) [ none ↦ false | some a ↦ b == key && a == key ]
]

-- What the loop over the components gathers.
pub record Gathered : Type 0 where
  pub components : List UnitComponent
  pub collapsed_into : List (String × String)
  pub diagnostics : List Diagnostic
  pub first_rejected : Option RejectedCycle

abbrev nothing_gathered : Gathered
nothing_gathered = record {
  components = [];
  collapsed_into = [];
  diagnostics = [];
  first_rejected = none;
}

abbrev or_first : Option RejectedCycle → RejectedCycle → Option RejectedCycle
or_first none c = some c
or_first (some first) c = some first

abbrev collapse_all : String → List String → List (String × String) → List (String × String)
collapse_all key [] into = into
collapse_all key (m ∷ ms) into = collapse_all key ms (set m key into)

abbrev is_reject : CyclePolicy → Bool
is_reject reject = true
is_reject _ = false

abbrev is_collapse : CyclePolicy → Bool
is_collapse collapse = true
is_collapse _ = false

abbrev keep_component : List String → Bool → CyclePolicy → Gathered → Gathered
keep_component members cyclic policy g = record g {
  components =
      g.components
      ++ record {
        key = key_of members;
        members = members;
        cyclic = cyclic;
        collapsed = cyclic && is_collapse policy;
        cycle_policy = policy;
      }
        ∷ [];
  collapsed_into =
      if cyclic && is_collapse policy
      then collapse_all (key_of members) members g.collapsed_into
      else g.collapsed_into;
  diagnostics =
      g.diagnostics
      ++ (if cyclic && is_collapse policy
          then info "CYCLE_COLLAPSED" ("components" ∷ key_of members ∷ []) ∷ []
          else if cyclic
          then info "CYCLE_ALLOWED" ("components" ∷ key_of members ∷ []) ∷ []
          else []);
}

abbrev gather_one : List String → List OrderingObligation → Gathered → Gathered
gather_one members edges g =
    let cyclic = ltb 1 (length members) || ltb 0 (length edges) in
    let policy = worst_policy allow edges in
    if cyclic && is_reject policy
    then record g {
      first_rejected = or_first g.first_rejected (record {
        members = members;
        refs = sort str_lt (map OrderingObligation.ref edges);
        relation_refs = sort str_lt (unique (map OrderingObligation.relation_ref edges));
      });
    }
    else keep_component members cyclic policy g

unfoldable pub gather :
    List (List String) → List OrderingObligation → List (List String) → Gathered → Gathered
gather cs scope [] g = g
gather cs scope (members ∷ more) g =
    gather cs scope more (gather_one members (filter (same_owner cs (key_of members)) scope) g)

-- The arcs between components, without repetition, and how many lead to each.
pub record Condensed : Type 0 where
  pub outgoing : List (String × List String)
  pub in_degree : List (String × ℕ)

abbrev targets_of : String → List (String × List String) → List String
targets_of key outgoing = elim (get key outgoing) [ none ↦ [] | some targets ↦ targets ]

abbrev connect : String → String → Condensed → Option Condensed
connect from to c =
    if from == to || includes (targets_of from c.outgoing) to
    then some c
    else and_then (get to c.in_degree) (λ n. some (record {
      outgoing = set from (targets_of from c.outgoing ++ to ∷ []) c.outgoing;
      in_degree = set to (n + 1) c.in_degree;
    }))

unfoldable pub condense :
    List (List String) → List OrderingObligation → Condensed → Option Condensed
condense cs [] c = some c
condense cs (o ∷ os) c =
    elim (and_then (owner cs o.before)
      (λ from. and_then (owner cs o.after) (λ to. connect from to c))) [
        | none ↦ none
        | some c' ↦ condense cs os c'
      ]

-- The loop over the targets of a component that is ordered.
abbrev release_all :
    List String → List String → List (String × ℕ) → Option (List String × List (String × ℕ))
release_all [] ready in_degree = some (ready, in_degree)
release_all (next ∷ more) ready in_degree = elim (get next in_degree) [
  | none ↦ none
  | some n ↦
      release_all more (if eqb (n - 1) 0 then sort str_lt (ready ++ next ∷ []) else ready)
        (set next (n - 1) in_degree)
]

-- The loop over the components that are ready. Each component is ready at most once.
drain_ready :
    List UnitComponent
    → List (String × List String)
    → ℕ
    → List String
    → List (String × ℕ)
    → List UnitComponent
    → Option (List UnitComponent)
drain_ready components outgoing fuel [] in_degree done = some done
drain_ready components outgoing zero (key ∷ ready) in_degree done = none
drain_ready components outgoing (suc fuel) (key ∷ ready) in_degree done =
    elim (find (λ (c : UnitComponent). c.key == key) components) [
      | none ↦ drain_ready components outgoing fuel ready in_degree done
      | some c ↦ elim (release_all (sort str_lt (targets_of key outgoing)) ready in_degree) [
        | none ↦ none
        | some (ready', in_degree') ↦
            drain_ready components outgoing fuel ready' in_degree' (done ++ c ∷ [])
      ]
    ]

abbrev members_of : List UnitComponent → List String
members_of [] = []
members_of (c ∷ cs) = c.members ++ members_of cs

abbrev is_ready : List (String × ℕ) → String → Bool
is_ready in_degree key = elim (get key in_degree) [ none ↦ false | some n ↦ eqb n 0 ]

abbrev planned_from : Gathered → Option (List UnitComponent) → OrderResult
planned_from g none = order_thrown
planned_from g (some done) =
    if eqb (length done) (length g.components)
    then ordered (record {
      order = members_of done;
      components = done;
      collapsed_into = g.collapsed_into;
      diagnostics = g.diagnostics;
    })
    else order_thrown

unfoldable pub order_components :
    List (List String) → List OrderingObligation → Gathered → OrderResult
unfolding drain_ready
order_components cs scope g = elim g.first_rejected [
  | some c ↦
      rejected c
        (g.diagnostics ++ fatal "CYCLE_REJECTED" ("components" ∷ key_of c.members ∷ []) ∷ [])
  | none ↦
      let keys = map UnitComponent.key g.components in
      planned_from g (
        and_then
          (condense cs scope (record {
            outgoing = map (λ key. (key, [])) keys;
            in_degree = map (λ key. (key, 0)) keys;
          }))
          (λ c.
            drain_ready g.components c.outgoing (length keys)
              (sort str_lt (filter (is_ready c.in_degree) keys)) c.in_degree []))
]

-- `planLoadOrder`
unfoldable pub plan_load_order : List String → List OrderingObligation → OrderResult
plan_load_order selected orderings =
    let nodes = sort str_lt (unique selected) in
    elim (strongly_connected_components nodes (length orderings)
      (build_adjacency nodes orderings)) [
        | none ↦ order_thrown
        | some cs ↦
            let scope = sort obligation_lt (filter (in_scope cs) orderings) in
            order_components cs scope (gather cs scope cs nothing_gathered)
      ]
