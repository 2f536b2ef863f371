-- ===== src/PluginHost/Lifecycle/Laws.antt =====
-- PluginLifecycle of packages/plugin-host/src/lifecycle.ts under any sequence of calls.
use prime_system.Base.{
  ℕ, zero, suc, ◌≤◌, String, ◌≡◌, refl, ◌≢◌, ◌↔◌, inl, inr, Bool, true, false, Option, none, some,
  List, [], ◌∷◌, ◌++◌, map, arith, ltb, eqb, ◌+◌, ◌&&◌, ◌||◌, Option-cases,
}
use prime_system.PluginHost.Lifecycle.{
  LifecycleState, discovered, verified, dependencies_resolved, authorized, initialized, healthy,
  serving, draining, stopped, failed, next, is_terminal, LifecycleState-discrete, TransitionResult,
  result_ok, LifecycleEntry, PluginLifecycle, new, advance, advance_from, advance_to, rounds, fail,
  shutdown, is_serving, state_after, Operation, advance_op, advance_to_op, fail_op, shutdown_op,
  apply, run,
}
use mathlib.Core.List.{map-append}

-- An edge of the machine: one step along the chain, a failure or a stop.
pub data Edge : LifecycleState → LifecycleState → Type 0 where
  forward : {s t : LifecycleState} → is_terminal s ≡ false → next s ≡ some t → Edge s t
  broken : {s : LifecycleState} → is_terminal s ≡ false → Edge s failed
  halted : {s : LifecycleState} → s ≢ stopped → Edge s stopped

-- A log and the state in which it ends.
pub data History : List LifecycleEntry → LifecycleState → Type 0 where
  start :
      {log : List LifecycleEntry}
      → log ≡ record { state = discovered; detail = none } ∷ []
      → History log discovered
  extend :
      {old log : List LifecycleEntry} {s t : LifecycleState} (detail : Option String)
      → History old s
      → Edge s t
      → log ≡ old ++ record { state = t; detail = detail } ∷ []
      → History log t

abbrev pub IsConsistent : PluginLifecycle → Type 0
IsConsistent l = History l.log l.current

pub new-IsConsistent : IsConsistent new
unfolding new
new-IsConsistent = start refl

pub advance-IsConsistent :
    (to : LifecycleState) (l : PluginLifecycle) → IsConsistent l → IsConsistent (advance to l).0
unfolding advance
advance-IsConsistent to l h = grind (arith, extend, forward)

pub fail-IsConsistent :
    (detail : String) (l : PluginLifecycle) → IsConsistent l → IsConsistent (fail detail l).0
unfolding fail
fail-IsConsistent detail l h = grind (arith, extend, broken)

pub shutdown-IsConsistent :
    (detail : Option String) (l : PluginLifecycle)
    → IsConsistent l
    → IsConsistent (shutdown detail l).0
unfolding shutdown
shutdown-IsConsistent detail l h = grind (arith, extend, halted)

advance_from-IsConsistent :
    (fuel : ℕ) (target : LifecycleState) (last : TransitionResult) (l : PluginLifecycle)
    → IsConsistent l
    → IsConsistent (state_after l (advance_from fuel target last l))
unfolding advance_from
advance_from-IsConsistent zero target last l h = h
advance_from-IsConsistent (suc fuel) target last l h =
    grind (arith, advance-IsConsistent, advance_from-IsConsistent fuel)

apply-IsConsistent :
    (o : Operation) (l : PluginLifecycle) → IsConsistent l → IsConsistent (apply o l)
unfolding apply advance_to
apply-IsConsistent (advance_op to) l h = advance-IsConsistent to l h
apply-IsConsistent (advance_to_op target) l h = advance_from-IsConsistent rounds target _ l h
apply-IsConsistent (fail_op detail) l h = fail-IsConsistent detail l h
apply-IsConsistent (shutdown_op detail) l h = shutdown-IsConsistent detail l h

run-IsConsistent :
    (os : List Operation) (l : PluginLifecycle) → IsConsistent l → IsConsistent (run os l)
unfolding run
run-IsConsistent [] l h = h
run-IsConsistent (o ∷ os) l h = run-IsConsistent os (apply o l) (apply-IsConsistent o l h)

-- The states up to the given one, as the plan of the source lists them.
abbrev pub chain : LifecycleState → List LifecycleState
chain discovered = discovered ∷ []
chain verified = discovered ∷ verified ∷ []
chain dependencies_resolved = discovered ∷ verified ∷ dependencies_resolved ∷ []
chain authorized = discovered ∷ verified ∷ dependencies_resolved ∷ authorized ∷ []
chain initialized = discovered ∷ verified ∷ dependencies_resolved ∷ authorized ∷ initialized ∷ []
chain healthy =
    discovered ∷ verified ∷ dependencies_resolved ∷ authorized ∷ initialized ∷ healthy ∷ []
chain serving =
    discovered ∷ verified ∷ dependencies_resolved ∷ authorized ∷ initialized ∷ healthy ∷ serving
    ∷ []
chain draining =
    discovered ∷ verified ∷ dependencies_resolved ∷ authorized ∷ initialized ∷ healthy ∷ serving
    ∷ draining ∷ []
chain stopped = []
chain failed = []

abbrev pub states : List LifecycleEntry → List LifecycleState
states log = map LifecycleEntry.state log

chain-next :
    (s t : LifecycleState) → next s ≡ some t → is_terminal t ≡ false → chain s ++ t ∷ [] ≡ chain t
chain-next discovered t e h = ground arith
chain-next _ t e h = ground arith

History-states :
    {log : List LifecycleEntry} {s : LifecycleState}
    → History log s
    → is_terminal s ≡ false
    → states log ≡ chain s
History-states (start e) h = rw e
History-states (extend {old} {s} {t} detail old_history (forward live e) same) h =
    rw (same, map-append, History-states old_history live) (chain-next s t e h)
History-states (extend detail old_history (broken live) same) h = cc
History-states (extend detail old_history (halted live) same) h = cc

-- Whatever a host calls on a new plugin, and in whatever order, the log of a plugin that is
-- neither stopped nor failed is the declared chain up to its state, each state once: none is
-- skipped, so a plugin that is initialized, healthy, serving or draining was authorized before.
pub run_log :
    (os : List Operation)
    → is_terminal (run os new).current ≡ false
    → states (run os new).log ≡ chain (run os new).current
run_log os h = History-states (run-IsConsistent os new new-IsConsistent) h

-- The place of a state in the chain; a failed plugin has left it.
abbrev pub rank : LifecycleState → ℕ
rank discovered = 0
rank verified = 1
rank dependencies_resolved = 2
rank authorized = 3
rank initialized = 4
rank healthy = 5
rank serving = 6
rank draining = 7
rank stopped = 8
rank failed = 9

-- The second state is the first, or a later one of the chain.
abbrev pub is_ahead : LifecycleState → LifecycleState → Bool
is_ahead s t = eqb (rank s) (rank t) || (ltb (rank s) (rank t) && ltb (rank t) 9)

-- Where a walk that does not meet its target ends.
abbrev pub dead_end : LifecycleState → LifecycleState
dead_end failed = failed
dead_end _ = stopped

pub advance-next :
    (l : PluginLifecycle) (t : LifecycleState)
    → next l.current ≡ some t
    → ((advance t l).0.current ≡ t) × (result_ok (advance t l).1 ≡ true)
unfolding advance
advance-next l t h = ground arith

abbrev pub Arrives :
    LifecycleState → LifecycleState → Option (PluginLifecycle × TransitionResult) → Type 0
Arrives s t none = ⊥
Arrives s t (some (l, r)) =
    (is_ahead s t ≡ true → (l.current ≡ t) × (result_ok r ≡ true))
    × (is_ahead s t ≡ false → (l.current ≡ dead_end s) × (result_ok r ≡ false))

next-ahead :
    (s t target : LifecycleState)
    → next s ≡ some t
    → s ≢ target
    → (rank t ≡ suc (rank s)) × (dead_end s ≡ dead_end t) × (is_ahead s target ≡ is_ahead t target)
next-ahead discovered t target e n = ground arith
next-ahead _ t target e n = ground arith

no_next-ahead :
    (s target : LifecycleState)
    → next s ≡ none
    → s ≢ target
    → (dead_end s ≡ s) × (is_ahead s target ≡ false)
no_next-ahead discovered target e n = cc
no_next-ahead _ target e n = ground arith

is_ahead_refl : (s : LifecycleState) → is_ahead s s ≡ true
is_ahead_refl discovered = refl
is_ahead_refl _ = refl

rank-bound : (s : LifecycleState) → rank s ≤ 9
rank-bound s = ground arith

advance_from-Arrives :
    (fuel : ℕ) (target : LifecycleState) (last : TransitionResult) (l : PluginLifecycle)
    → 10 ≤ fuel + rank l.current
    → result_ok last ≡ true
    → Arrives l.current target (advance_from fuel target last l)
unfolding advance_from
advance_from-Arrives zero target last l f ok = absurd (omega (arith, rank-bound l.current))
advance_from-Arrives (suc fuel) target last l f ok =
    elim (LifecycleState-discrete l.current target) [
      | yes same ↦ ground (arith, is_ahead_refl l.current)
      | no other ↦ elim (Option-cases (next l.current)) [
        | inl e ↦ ground (arith, no_next-ahead l.current target e other)
        | inr (t, e) ↦
            let (rank_t, same_end, same_ahead) = next-ahead l.current t target e other in
            let (at_t, accepted) = advance-next l t e in
            let ih =
              advance_from-Arrives fuel target (advance t l).1 (advance t l).0
                (rw at_t (omega arith)) accepted in
            ground arith
      ]
    ]

-- `advanceTo` always returns, within ten rounds.
pub advance_to-Arrives :
    (target : LifecycleState) (l : PluginLifecycle) → Arrives l.current target (advance_to target l)
unfolding advance_to
advance_to-Arrives target l = advance_from-Arrives rounds target _ l (omega arith) refl

terminal-apply :
    (o : Operation) (l : PluginLifecycle)
    → is_terminal l.current ≡ true
    → is_terminal (apply o l).current ≡ true
unfolding apply advance advance_to advance_from fail shutdown
terminal-apply (advance_op to) l h = ground arith
terminal-apply (advance_to_op target) l h = ground arith
terminal-apply (fail_op detail) l h = ground arith
terminal-apply (shutdown_op detail) l h = ground arith

-- A plugin that is stopped or failed stays stopped or failed, and is not served, whatever the host
-- calls on it and in whatever order.
pub run-terminal :
    (os : List Operation) (l : PluginLifecycle)
    → is_terminal l.current ≡ true
    → (is_terminal (run os l).current ≡ true) × (is_serving (run os l) ≡ false)
unfolding run is_serving
run-terminal [] l h = ground arith
run-terminal (o ∷ os) l h = run-terminal os (apply o l) (terminal-apply o l h)

-- An advance is accepted exactly when it asks for the one successor of the state; a refused one
-- leaves the plugin as it was.
pub advance_iff :
    (to : LifecycleState) (l : PluginLifecycle)
    → ((result_ok (advance to l).1 ≡ true) ↔ (next l.current ≡ some to))
      × (result_ok (advance to l).1 ≡ false → (advance to l).0 ≡ l)
unfolding advance
advance_iff to l = ground arith

-- A stop is never refused, and always leaves the plugin stopped.
pub shutdown_lem :
    (detail : Option String) (l : PluginLifecycle)
    → ((shutdown detail l).0.current ≡ stopped) × (result_ok (shutdown detail l).1 ≡ true)
unfolding shutdown
shutdown_lem detail l = ground arith
