-- ===== src/PluginHost/Host/Calls.antt =====
-- call, shutdown and shutdownAll of packages/plugin-host/src/host.ts, and the calls that a host gets.
use prime_system.Base.{
  String, string_eq, codes, List, [], ◌∷◌, ◌++◌, Option, none, some, if◌then◌else◌,
}
use prime_system.Base.Maps.{get}
use prime_system.PluginHost.Lifecycle.{draining, is_serving, shutdown}
use prime_system.PluginHost.Events.{plugin_call, plugin_state}
use prime_system.PluginHost.Host.{
  Platform, HostPolicy, Host, PluginRecord, emit, store, Effect, called, drained, shut_down,
  Executor, CallResult, call_refused, host_of, discover,
}
use prime_system.PluginHost.Host.Activate.{advanced, activate}

abbrev pub act : Effect → Host → Host
act e h = record h { trace = h.trace ++ e ∷ [] }

module _ (platform : Platform) where
  abbrev pub dispatch : String → String → Option Executor → Host → Host × CallResult
  dispatch name method none h = (h, call_refused "PLUGIN_NOT_SERVING")
  dispatch name method (some e) h =
      (act (called e method) (emit plugin_call (codes name) h), platform.reply e method)

  -- `call`
  unfoldable pub call : String → String → Host → Host × CallResult
  call name method h = elim (get name h.records) [
    | none ↦ (h, call_refused "PLUGIN_UNKNOWN")
    | some r ↦
        if is_serving r.lifecycle
        then dispatch name method r.executor h
        else (h, call_refused "PLUGIN_NOT_SERVING")
  ]

-- `await record.executor?.drain()` and the like.
abbrev pub tell : (Executor → Effect) → Option Executor → Host → Host
tell f none h = h
tell f (some e) h = act (f e) h

abbrev pub drain : PluginRecord → Host → Host
drain r h = tell drained r.executor (store (advanced draining r) h)

abbrev pub stop : PluginRecord → Host → Host
stop r h =
    emit plugin_state (codes r.name)
      (store (record r { lifecycle = (shutdown none r.lifecycle).0 }) (tell shut_down r.executor h))

-- `shutdown`
unfoldable pub shutdown_record : PluginRecord → Host → Host
shutdown_record r h =
    if is_serving r.lifecycle then stop (advanced draining r) (drain r h) else stop r h

unfoldable pub shutdown_plugin : String → Host → Host
shutdown_plugin name h = elim (get name h.records) [ none ↦ h | some r ↦ shutdown_record r h ]

abbrev pub names_of : List (String × PluginRecord) → List String
names_of [] = []
names_of ((name, r) ∷ more) = name ∷ names_of more

unfoldable pub shutdown_names : List String → Host → Host
shutdown_names [] h = h
shutdown_names (name ∷ names) h = shutdown_names names (shutdown_plugin name h)

-- `shutdownAll`
unfoldable pub shutdown_all : Host → Host
shutdown_all h = shutdown_names (names_of h.records) h

-- The public calls of a host.
pub data Request : Type 0 where
  discover_request shutdown_all_request : Request
  activate_request shutdown_request : String → Request
  call_request : String → (method : String) → Request

module _ (platform : Platform) (policy : HostPolicy) where
  unfoldable pub handle : Request → Host → Host
  handle discover_request h = host_of (discover platform policy h)
  handle (activate_request name) h = (activate platform policy name h).0
  handle (call_request name method) h = (call platform name method h).0
  handle (shutdown_request name) h = shutdown_plugin name h
  handle shutdown_all_request h = shutdown_all h

  unfoldable pub handle_all : List Request → Host → Host
  handle_all [] h = h
  handle_all (r ∷ rs) h = handle_all rs (handle r h)
