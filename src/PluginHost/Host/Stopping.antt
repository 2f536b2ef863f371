-- ===== src/PluginHost/Host/Stopping.antt =====
-- call after shutdown, packages/plugin-host/src/host.ts.
use prime_system.Base.{String, string_eq, ◌≡◌, refl, ap, arith, false, none, some, if-holds}
use mathlib.Core.Path.{subst}
use prime_system.Base.Maps.{get, get-set_self}
use prime_system.PluginHost.Lifecycle.{
  stopped, draining, LifecycleState-discrete, PluginLifecycle, is_serving, shutdown,
}
use prime_system.PluginHost.Host.{Platform, Host, PluginRecord, call_refused, state_of}
use prime_system.PluginHost.Host.Activate.{advanced}
use prime_system.PluginHost.Host.Calls.{call, drain, stop, shutdown_record, shutdown_plugin}
use prime_system.PluginHost.Host.Runs.{shutdown-serving}

shutdown_current : (l : PluginLifecycle) → (shutdown none l).0.current ≡ stopped
unfolding shutdown LifecycleState-discrete
shutdown_current l = ground arith

-- A plugin under its name is stopped.
abbrev IsStopped : String → Host → Type 0
IsStopped name h =
    (r : PluginRecord) × (get name h.records ≡ some r)
    × (is_serving r.lifecycle ≡ false)
    × (r.lifecycle.current ≡ stopped)

stop-IsStopped : (r : PluginRecord) (h : Host) → IsStopped r.name (stop r h)
stop-IsStopped r h = (
  record r { lifecycle = (shutdown none r.lifecycle).0 },
  get-set_self r.name _ _,
  shutdown-serving none r.lifecycle,
  shutdown_current r.lifecycle,
)

shutdown_record-IsStopped : (r : PluginRecord) (h : Host) → IsStopped r.name (shutdown_record r h)
unfolding shutdown_record
shutdown_record-IsStopped r h =
    if-holds (IsStopped r.name) (is_serving r.lifecycle) _ _
      (λ i. stop-IsStopped (advanced draining r) (drain r h)) (λ i. stop-IsStopped r h)

module _ (platform : Platform) where
  call-IsStopped :
      (name method : String) (h : Host)
      → IsStopped name h
      → (state_of name h ≡ some stopped)
        × (call platform name method h ≡ (h, call_refused "PLUGIN_NOT_SERVING"))
  unfolding state_of call
  call-IsStopped name method h (r, e, idle, over) =
      (rw (e, state_of) (ap some over), rw (e, call, idle) refl)

  -- After a shutdown, from whatever state, a plugin that the host knows is stopped, and a call of
  -- it is refused and changes nothing.
  pub call-shutdown_plugin :
      (name method : String) (r : PluginRecord) (h : Host)
      → get name h.records ≡ some r
      → r.name ≡ name
      → (state_of name (shutdown_plugin name h) ≡ some stopped)
        × (call platform name method (shutdown_plugin name h)
            ≡ (shutdown_plugin name h, call_refused "PLUGIN_NOT_SERVING"))
  unfolding shutdown_plugin
  call-shutdown_plugin name method r h e same =
      call-IsStopped name method (shutdown_plugin name h) (
        rw (e, shutdown_plugin)
          (subst (λ k. IsStopped k (shutdown_record r h)) same (shutdown_record-IsStopped r h)))
