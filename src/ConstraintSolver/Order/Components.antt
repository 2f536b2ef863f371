-- ===== src/ConstraintSolver/Order/Components.antt =====
-- buildAdjacency and stronglyConnectedComponents of packages/constraint-solver/src/order.ts; `none`
-- is the error of `must`. Each round of the search moves a frame on, opens a node or closes one, so
-- that the units twice and the orderings are rounds enough.
use prime_system.Base.{
  ℕ, zero, suc, ◌+◌, String, string_eq, ◌==◌, Bool, not, ◌&&◌, List, [], ◌∷◌, ◌++◌, Option, none,
  some, if◌then◌else◌, includes, filter, map, str_lt, length, get_elem?, ltb, eqb,
}
use prime_system.Base.Maps.{get, set}
use prime_system.Base.Sorting.{sort}
use prime_system.ConstraintSolver.Constraints.{OrderingObligation}

abbrev pub and_then {ℓ κ} : {A : Type ℓ} {B : Type κ} → Option A → (A → Option B) → Option B
and_then none f = none
and_then (some a) f = f a

abbrev pub obligation_lt : OrderingObligation → OrderingObligation → Bool
obligation_lt a b = str_lt a.ref b.ref

abbrev pub neighbours : List (String × List String) → String → List String
neighbours adjacency node = elim (get node adjacency) [ none ↦ [] | some ns ↦ ns ]

abbrev add_arc :
    List String → OrderingObligation → List (String × List String) → List (String × List String)
add_arc nodes o adjacency =
    if includes nodes o.before && includes nodes o.after
    then set o.before (neighbours adjacency o.before ++ o.after ∷ []) adjacency
    else adjacency

abbrev add_arcs :
    List String
    → List OrderingObligation
    → List (String × List String)
    → List (String × List String)
add_arcs nodes [] adjacency = adjacency
add_arcs nodes (o ∷ os) adjacency = add_arcs nodes os (add_arc nodes o adjacency)

-- `buildAdjacency`
unfoldable pub build_adjacency : List String → List OrderingObligation → List (String × List String)
build_adjacency nodes orderings =
    map (λ (row : String × List String). (row.0, sort str_lt row.1))
      (add_arcs nodes (sort obligation_lt orderings) (map (λ node. (node, [])) nodes))

-- The variables of the search; the last that is pending comes first.
pub record Search : Type 0 where
  pub index : List (String × ℕ)
  pub low : List (String × ℕ)
  pub on_stack : List String
  pub pending : List String
  pub components : List (List String)
  pub counter : ℕ

abbrev no_search : Search
no_search = record {
  index = [];
  low = [];
  on_stack = [];
  pending = [];
  components = [];
  counter = 0;
}

abbrev opened : String → Search → Search
opened node s = record s {
  index = set node s.counter s.index;
  low = set node s.counter s.low;
  counter = s.counter + 1;
  pending = node ∷ s.pending;
  on_stack = node ∷ s.on_stack;
}

abbrev least : ℕ → ℕ → ℕ
least m n = if ltb n m then n else m

-- A node and the place of its next neighbour; the last frame comes first.
abbrev Frames : Type 0
Frames = List (String × ℕ)

abbrev visit : String → String → Frames → Frames → Search → Option (Search × Frames)
visit child node moved rest s = elim (get child s.index) [
  | none ↦ some (opened child s, (child, 0) ∷ moved)
  | some i ↦
      if includes s.on_stack child
      then and_then (get node s.low)
          (λ l. some (record s { low = set node (least l i) s.low }, moved))
      else some (s, moved)
]

-- The nodes that are pending down to a node, and those that stay.
abbrev pop_to : String → List String → Option (List String × List String)
pop_to node [] = none
pop_to node (p ∷ ps) =
    let rest = pop_to node ps in
    if p == node
    then some (p ∷ [], ps)
    else and_then rest (λ (popped, left). some (p ∷ popped, left))

abbrev finished : String → ℕ → ℕ → Search → Option Search
finished node l i s =
    if eqb l i
    then and_then (pop_to node s.pending) (λ (popped, left). some (record s {
      pending = left;
      on_stack = filter (λ n. not (includes popped n)) s.on_stack;
      components = s.components ++ sort str_lt popped ∷ [];
    }))
    else some s

abbrev lowered : String → Frames → Search → Option (Search × Frames)
lowered node [] s = some (s, [])
lowered node ((parent, next) ∷ rest) s = and_then (get parent s.low) (λ p.
    and_then (get node s.low)
      (λ l. some (record s { low = set parent (least p l) s.low }, (parent, next) ∷ rest)))

abbrev close : String → Frames → Search → Option (Search × Frames)
close node rest s = and_then (get node s.low) (λ l.
    and_then (get node s.index) (λ i. and_then (finished node l i s) (λ s'. lowered node rest s')))

abbrev round : List (String × List String) → String → ℕ → Frames → Search → Option (Search × Frames)
round adjacency node next rest s = elim (get_elem? (neighbours adjacency node) next) [
  | some child ↦ visit child node ((node, next + 1) ∷ rest) rest s
  | none ↦ close node rest s
]

search_from : List (String × List String) → ℕ → Frames → Search → Option Search
search_from adjacency fuel [] s = some s
search_from adjacency zero (f ∷ rest) s = none
search_from adjacency (suc fuel) ((node, next) ∷ rest) s = elim (round adjacency node next rest s) [
  | none ↦ none
  | some (s', frames) ↦ search_from adjacency fuel frames s'
]

search_roots : List (String × List String) → ℕ → List String → Search → Option Search
unfolding search_from
search_roots adjacency fuel [] s = some s
search_roots adjacency fuel (root ∷ roots) s = elim (get root s.index) [
  | some i ↦ search_roots adjacency fuel roots s
  | none ↦ elim (search_from adjacency fuel ((root, 0) ∷ []) (opened root s)) [
    | none ↦ none
    | some s' ↦ search_roots adjacency fuel roots s'
  ]
]

-- `component[0] ?? ""`
abbrev pub key_of : List String → String
key_of [] = ""
key_of (member ∷ members) = member

abbrev component_lt : List String → List String → Bool
component_lt a b = str_lt (key_of a) (key_of b)

-- `stronglyConnectedComponents`
unfoldable pub strongly_connected_components :
    List String → ℕ → List (String × List String) → Option (List (List String))
unfolding search_roots
strongly_connected_components nodes arcs adjacency =
    and_then (search_roots adjacency (length nodes + length nodes + arcs) nodes no_search)
      (λ s. some (sort component_lt s.components))
