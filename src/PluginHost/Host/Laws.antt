-- ===== src/PluginHost/Host/Laws.antt =====
-- activate of packages/plugin-host/src/host.ts: its gates, its results, and a second activation.
use prime_system.Base.{String, string_eq, ◌≡◌, refl, ◌⊎◌, true, false, Bool, some}
use prime_system.Base.Maps.{get-set_self}
use prime_system.PluginHost.Lifecycle.{
  LifecycleState, discovered, verified, dependencies_resolved, authorized, serving, failed, next,
}
use prime_system.PluginHost.Lifecycle.Laws.{advance-next}
use prime_system.PluginHost.Host.{Host, PluginRecord, state_of, store}
use prime_system.PluginHost.Host.Activate.{
  ActivationCode, plugin_unknown, provides_not_accepted, sandbox_mode_unsupported,
  signature_refused, dependency_unresolved, capability_malformed, initialize_failed, Activation,
  activated, not_activated, advanced, activation_thrown,
}

-- The state in which the gate of a code refuses.
abbrev pub gate_of : ActivationCode → LifecycleState
gate_of plugin_unknown = discovered
gate_of (signature_refused code) = discovered
gate_of (dependency_unresolved missing) = verified
gate_of provides_not_accepted = dependencies_resolved
gate_of (capability_malformed malformed) = dependencies_resolved
gate_of sandbox_mode_unsupported = authorized
gate_of (initialize_failed error) = authorized

-- The states in which an activation that throws leaves a plugin.
abbrev pub is_left : LifecycleState → Bool
is_left discovered = true
is_left dependencies_resolved = true
is_left _ = false

-- A plugin serves, or it has failed at the gate that refused it, or the activation threw and left
-- it on the way.
abbrev pub Settles : String → Host × Activation → Type 0
Settles name result =
    ((result.1 ≡ activated) × (state_of name result.0 ≡ some serving))
    ⊎ ((code : ActivationCode) × (result.1 ≡ not_activated (gate_of code) code)
        × (state_of name result.0 ≡ some failed))
    ⊎ ((at : LifecycleState) × (result.1 ≡ activation_thrown)
        × (is_left at ≡ true)
        × (state_of name result.0 ≡ some at))

pub state_of-store :
    (r : PluginRecord) (h : Host) → state_of r.name (store r h) ≡ some r.lifecycle.current
unfolding state_of
state_of-store r h = rw (get-set_self r.name r h.records, state_of) refl

pub advanced_current :
    (from to : LifecycleState) (r : PluginRecord)
    → r.lifecycle.current ≡ from
    → next from ≡ some to
    → (advanced to r).lifecycle.current ≡ to
advanced_current from to r e n = (advance-next r.lifecycle to (rw e n)).0
