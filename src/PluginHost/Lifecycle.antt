-- ===== src/PluginHost/Lifecycle.antt =====
-- packages/plugin-host/src/lifecycle.ts: the state machine of one plugin.
pub mod Laws
use prime_system.Base.{
  ℕ, zero, suc, String, Bool, true, false, Option, none, some, List, [], ◌∷◌, ◌++◌, if◌then◌else◌,
  ◌⧺◌,
}

pub data LifecycleState : Type 0 where
  discovered verified dependencies_resolved authorized initialized : LifecycleState
  healthy serving draining stopped failed : LifecycleState

-- The table NEXT: the one legal successor of each state.
abbrev pub next : LifecycleState → Option LifecycleState
next discovered = some verified
next verified = some dependencies_resolved
next dependencies_resolved = some authorized
next authorized = some initialized
next initialized = some healthy
next healthy = some serving
next serving = some draining
next draining = some stopped
next stopped = none
next failed = none

-- TERMINAL_STATES.has(state)
abbrev pub is_terminal : LifecycleState → Bool
is_terminal stopped = true
is_terminal failed = true
is_terminal _ = false

-- The state as the source spells it, for the reasons of a refusal.
state_name : LifecycleState → String
state_name discovered = "discovered"
state_name verified = "verified"
state_name dependencies_resolved = "dependencies-resolved"
state_name authorized = "authorized"
state_name initialized = "initialized"
state_name healthy = "healthy"
state_name serving = "serving"
state_name draining = "draining"
state_name stopped = "stopped"
state_name failed = "failed"

unfoldable pub LifecycleState-discrete : Discrete LifecycleState
LifecycleState-discrete = hlevel

pub data TransitionRefusalCode : Type 0 where
  lifecycle_terminal lifecycle_out_of_order : TransitionRefusalCode

pub data TransitionResult : Type 0 where
  moved : (from to : LifecycleState) → TransitionResult
  refused :
      (code : TransitionRefusalCode) (reason : String) (from attempted : LifecycleState)
      → TransitionResult

abbrev pub result_ok : TransitionResult → Bool
result_ok (moved from to) = true
result_ok (refused code reason from attempted) = false

pub record LifecycleEntry : Type 0 where
  pub state : LifecycleState
  pub detail : Option String

pub record PluginLifecycle : Type 0 where
  pub current : LifecycleState
  pub log : List LifecycleEntry

unfoldable pub new : PluginLifecycle
new = record { current = discovered; log = record { state = discovered; detail = none } ∷ [] }

unfoldable pub is_serving : PluginLifecycle → Bool
is_serving l = elim (LifecycleState-discrete l.current serving) [ yes _ ↦ true | no _ ↦ false ]

-- `this.current = to; this.log.push({ state: to, detail })`
abbrev enter : LifecycleState → Option String → PluginLifecycle → PluginLifecycle
enter to detail l = record {
  current = to;
  log = l.log ++ record { state = to; detail = detail } ∷ [];
}

out_of_order : LifecycleState → LifecycleState → Option LifecycleState → TransitionResult
unfolding state_name
out_of_order from to none =
    refused lifecycle_out_of_order ("No transition leaves " ⧺ state_name from) from to
out_of_order from to (some expected) =
    refused lifecycle_out_of_order
      (state_name from
        ⧺ " may only advance to "
        ⧺ state_name expected
        ⧺ ", not "
        ⧺ state_name to
        ⧺ ": "
        ⧺ state_name expected
        ⧺ " would be skipped")
      from to

-- `expected !== to`
abbrev is_expected : Option LifecycleState → LifecycleState → Bool
is_expected none to = false
is_expected (some expected) to = elim (LifecycleState-discrete expected to) [
  | yes _ ↦ true
  | no _ ↦ false
]

unfoldable pub advance : LifecycleState → PluginLifecycle → PluginLifecycle × TransitionResult
unfolding out_of_order state_name
advance to l =
    let from = l.current in
    if is_terminal from
    then (
      l,
      refused lifecycle_terminal ("Plugin is " ⧺ state_name from ⧺ "; it must be rediscovered") from
          to,
    )
    else if is_expected (next from) to
    then (enter to none l, moved from to)
    else (l, out_of_order from to (next from))

-- The loop of `advanceTo`; `none` is fuel that ran out.
advance_from :
    ℕ
    → LifecycleState
    → TransitionResult
    → PluginLifecycle
    → Option (PluginLifecycle × TransitionResult)
unfolding advance
advance_from zero target last l = none
advance_from (suc fuel) target last l = elim (LifecycleState-discrete l.current target) [
  | yes _ ↦ some (l, last)
  | no _ ↦ elim (next l.current) [
    | none ↦ some (
      l,
      refused lifecycle_out_of_order
          (state_name target ⧺ " is not reachable from " ⧺ state_name l.current) l.current target,
    )
    | some to ↦
        let (l', result) = advance to l in
        let onward = advance_from fuel target result l' in
        if result_ok result then onward else some (l', result)
  ]
]

-- A walk makes at most eight steps, so ten rounds are enough.
abbrev pub rounds : ℕ
rounds = 10

unfoldable pub advance_to :
    LifecycleState → PluginLifecycle → Option (PluginLifecycle × TransitionResult)
unfolding advance_from
advance_to target l = advance_from rounds target (moved l.current l.current) l

unfoldable pub fail : String → PluginLifecycle → PluginLifecycle × TransitionResult
unfolding state_name
fail detail l =
    let from = l.current in
    if is_terminal from
    then (l, refused lifecycle_terminal ("Plugin is already " ⧺ state_name from) from failed)
    else (enter failed (some detail) l, moved from failed)

unfoldable pub shutdown : Option String → PluginLifecycle → PluginLifecycle × TransitionResult
shutdown detail l =
    let from = l.current in
    elim (LifecycleState-discrete from stopped) [
      | yes _ ↦ (l, moved from stopped)
      | no _ ↦ (enter stopped detail l, moved from stopped)
    ]

-- The calls that a host makes.
pub data Operation : Type 0 where
  advance_op advance_to_op : LifecycleState → Operation
  fail_op : String → Operation
  shutdown_op : Option String → Operation

abbrev state_after {ℓ} :
    {A : Type ℓ} → PluginLifecycle → Option (PluginLifecycle × A) → PluginLifecycle
state_after l none = l
state_after l (some (l', _)) = l'

unfoldable pub apply : Operation → PluginLifecycle → PluginLifecycle
apply (advance_op to) l = (advance to l).0
apply (advance_to_op target) l = state_after l (advance_to target l)
apply (fail_op detail) l = (fail detail l).0
apply (shutdown_op detail) l = (shutdown detail l).0

unfoldable pub run : List Operation → PluginLifecycle → PluginLifecycle
run [] l = l
run (o ∷ os) l = run os (apply o l)
