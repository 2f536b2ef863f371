-- ===== src/ConstraintSolver/Closure.antt =====
-- The mandatory closure, `closeOver` of packages/constraint-solver/src/solve.ts.
pub mod Laws
pub mod Covers
pub mod Outcome
use prime_system.Base.{
  ℕ, zero, suc, ◌+◌, String, Bool, true, false, not, ◌&&◌, ◌||◌, List, [], ◌∷◌, ◌++◌, Option, none,
  some, if◌then◌else◌, ◌==◌, includes, string_eq, map, filter, str_lt, eqb, any, unique, length,
}
use prime_system.Base.Maps.{get, set}
use prime_system.Base.Sorting.{sort}
use prime_system.ConstraintSolver.Semantics.{may_hop}
use prime_system.ConstraintSolver.Constraints.{HardRequirement}

-- How a unit was discovered.
pub record Origin : Type 0 where
  pub relation_ref : String
  pub from : String
  pub depth : ℕ

pub record Expansion : Type 0 where
  pub relation_ref : String
  pub from : String
  pub discovered : List String
  pub depth : ℕ

-- The variables of the loop. `hops` has the one relation through which each unit was found, with
-- the depth: a unit is discovered once, so its relations hold one entry at most.
pub record Walk : Type 0 where
  pub included : List String
  pub support : List (String × List String)
  pub hops : List (String × Origin)
  pub expansions : List Expansion
  pub frontier : List String

pub record Missing : Type 0 where
  pub requirement : HardRequirement
  pub subject : String

pub data Closed : Type 0 where
  closed : Walk → Closed
  missing_target : Walk → Missing → Closed

abbrev pub refs_or_empty : Option (List String) → List String
refs_or_empty none = []
refs_or_empty (some refs) = refs

-- `support.get(unit) ?? []`
abbrev pub chain_of : List (String × List String) → String → List String
chain_of support unit = refs_or_empty (get unit support)

abbrev depth_via : String → Option Origin → ℕ
depth_via relation_ref none = 0
depth_via relation_ref (some o) = if o.relation_ref == relation_ref then o.depth else 0

-- `depthOf`
unfoldable pub depth_of : List (String × Origin) → String → String → ℕ
depth_of hops relation_ref unit = depth_via relation_ref (get unit hops)

-- `depthOf(...) >= maxHops(...)` is false
abbrev pub fires : Walk → HardRequirement → String → Bool
fires w r subject = may_hop r.traversal (depth_of w.hops r.relation_ref subject)

-- What one round has found so far: the discovered units in order, with their support.
pub record Found : Type 0 where
  pub discovered : List (String × Origin)
  pub support : List (String × List String)

pub data Round : Type 0 where
  found : Found → Round
  stopped : Found → Missing → Round

abbrev pub names_of : List (String × Origin) → List String
names_of discovered = map (λ (p : String × Origin). p.0) discovered

-- The target of a requirement is discovered.
abbrev pub note : Walk → String → HardRequirement → Found → Found
note w subject r f = record {
  discovered =
      f.discovered
      ++ (
        r.target,
        record {
          relation_ref = r.relation_ref;
          from = subject;
          depth = depth_of w.hops r.relation_ref subject + 1;
        },
      )
        ∷ [];
  support = set r.target (chain_of f.support subject ++ r.ref ∷ []) f.support;
}

-- The loop over the requirements of one subject, in the order of their refs.
unfoldable pub visit_requirements :
    List String → Walk → String → List HardRequirement → Found → Round
visit_requirements universe w subject [] f = found f
visit_requirements universe w subject (r ∷ rs) f =
    let skip = visit_requirements universe w subject rs f in
    let found_it = visit_requirements universe w subject rs (note w subject r f) in
    if not (r.subject == subject) || not (fires w r subject)
    then skip
    else if not (includes universe r.target)
    then stopped f (record { requirement = r; subject = subject })
    else if includes w.included r.target || includes (names_of f.discovered) r.target
    then skip
    else found_it

-- The loop over the frontier.
unfoldable pub visit_frontier :
    List String → List HardRequirement → Walk → List String → Found → Round
visit_frontier universe rs w [] f = found f
visit_frontier universe rs w (subject ∷ subjects) f =
    elim (visit_requirements universe w subject rs f) [
      | found g ↦ visit_frontier universe rs w subjects g
      | stopped g m ↦ stopped g m
    ]

-- The discovered units of one origin, for the record of expansions.
same_origin : Origin → Origin → Bool
same_origin a b = a.relation_ref == b.relation_ref && a.from == b.from && eqb a.depth b.depth

group : Origin → List (String × Origin) → List String
unfolding same_origin
group o [] = []
group o ((unit, p) ∷ rest) =
    let more = group o rest in if same_origin o p then unit ∷ more else more

groups : List Expansion → List (String × Origin) → List (String × Origin) → List Expansion
unfolding group
groups done all [] = done
groups done all ((unit, o) ∷ rest) =
    let again =
      any
        (λ (e : Expansion).
          e.relation_ref == o.relation_ref && e.from == o.from && eqb e.depth o.depth)
        done in
    groups
      (if again
        then done
        else done
          ++ record {
            relation_ref = o.relation_ref;
            from = o.from;
            discovered = sort str_lt (group o all);
            depth = o.depth;
          }
            ∷ [])
      all rest

expansion_lt : Expansion → Expansion → Bool
expansion_lt a b =
    if a.relation_ref == b.relation_ref
    then if a.from == b.from then false else str_lt a.from b.from
    else str_lt a.relation_ref b.relation_ref

-- The end of a round: what was discovered joins the included units and is the next frontier.
unfoldable pub advance : Walk → Found → Walk
unfolding groups expansion_lt
advance w f =
    let fresh = names_of f.discovered in
    record {
      included = w.included ++ sort str_lt fresh;
      support = f.support;
      hops = w.hops ++ f.discovered;
      expansions = w.expansions ++ sort expansion_lt (groups [] f.discovered f.discovered);
      frontier = sort str_lt fresh;
    }

abbrev pub is_empty : List String → Bool
is_empty [] = true
is_empty (x ∷ xs) = false

-- The outcome lists the included units in order.
unfoldable pub sorted : Walk → Walk
sorted w = record w { included = sort str_lt w.included }

-- The loop; `none` is fuel that ran out.
unfoldable pub close_from : ℕ → List String → List HardRequirement → Walk → Option Closed
close_from zero universe rs w = none
close_from (suc fuel) universe rs w = elim (is_empty w.frontier) [
  | true ↦ some (closed (sorted w))
  | false ↦
      elim (visit_frontier universe rs w w.frontier
        (record { discovered = []; support = w.support })) [
          | stopped f m ↦ some (missing_target (sorted (record w { support = f.support })) m)
          | found f ↦ close_from fuel universe rs (advance w f)
        ]
]

abbrev pub requirement_lt : HardRequirement → HardRequirement → Bool
requirement_lt a b = str_lt a.ref b.ref

unfoldable pub start : List String → Walk
start seeds = record {
  included = sort str_lt (unique seeds);
  support = map (λ (s : String). (s, [])) (sort str_lt (unique seeds));
  hops = [];
  expansions = [];
  frontier = sort str_lt (unique seeds);
}

-- Each round but the last includes a unit of the universe that was not included before.
unfoldable pub close_over : List String → List HardRequirement → List String → Option Closed
unfolding close_from start
close_over seeds rs universe =
    close_from (suc (suc (length universe))) universe (sort requirement_lt rs) (start seeds)
