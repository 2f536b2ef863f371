-- ===== src/PluginHost/Host/Runs/Steps.antt =====
-- The calls of a host of packages/plugin-host/src/host.ts, one by one and in sequence.
use prime_system.Base.{
  Text, String, string_eq, codes, ◌≡◌, refl, ◌∙◌, arith, Bool, List, [], ◌∷◌, ◌++◌, Option, none,
  some, if-holds, Option-cases, inl, inr,
}
use prime_system.Base.Maps.{get}
use prime_system.Base.Sorting.{sort}
use prime_system.PluginHost.Lifecycle.{draining, new, is_serving, shutdown, LifecycleState-discrete}
use prime_system.PluginHost.Lifecycle.Laws.{new-IsConsistent}
use prime_system.PluginHost.Capabilities.{no_capabilities}
use prime_system.PluginHost.Events.{plugin_rejected, plugin_state, plugin_call, plugin_discovered}
use prime_system.PluginHost.Trust.{TrustResult, trusted, refused, record_digest}
use prime_system.PluginHost.Host.{
  Platform, HostPolicy, Host, PluginRecord, Manifest, Loaded, loaded, unloadable, Effect, emitted,
  called, drained, shut_down, Executor, RejectionCode, name_duplicate, not_trusted,
  manifest_invalid, root_missing, CallResult, sha256, store, reject, new_record, is_known,
  Discovery, going, thrown, host_of, plugin_digest, admit_digest, admit_entry, admit_unique,
  admit_loaded, admit_checked, admit, entry_lt, provenance_of, admit_entries, discover_root,
  discover_roots, discover, empty_host,
}
use prime_system.PluginHost.Host.Activate.{advanced}
use prime_system.PluginHost.Host.Calls.{
  dispatch, call, tell, drain, stop, shutdown_record, shutdown_plugin, names_of, shutdown_names,
  shutdown_all, Request, discover_request, shutdown_all_request, activate_request, shutdown_request,
  call_request, handle, handle_all,
}
use prime_system.PluginHost.Host.Gates.{was_started, was_started-append}
use prime_system.PluginHost.Host.Runs.{
  is_due, AreSound, effect-AreSound, advanced-IsSound, stopped-IsSound,
}
use prime_system.PluginHost.Host.Runs.Activations.{
  Good, Fine, emit-Good, store-Good, Fine-at, Fine-effect, activate-Good,
}

module _ (platform : Platform) (policy : HostPolicy) where
  dispatch-Good :
      (name method : String) (r : PluginRecord) (h : Host)
      → Fine policy h r
      → Good policy h
      → Good policy (dispatch platform name method r.executor h).0
  dispatch-Good name method r h s g = elim (Option-cases r.executor) [
    | inl e ↦ rw e g
    | inr (e, i) ↦ rw i (
        effect-AreSound policy h.records (h.trace ++ emitted plugin_call (codes name) ∷ [])
          (called e method)
          (was_started-append e h.trace (emitted plugin_call (codes name) ∷ [])
            ∙ ground (arith, s.ran e i))
          (emit-Good policy plugin_call (codes name) h g))
  ]

  call-Good :
      (name method : String) (h : Host)
      → Good policy h
      → Good policy (call platform name method h).0
  unfolding call
  call-Good name method h g = elim (Option-cases (get name h.records)) [
    | inl e ↦ rw (e, call) g
    | inr (r, e) ↦
        rw (e, call)
          (if-holds (λ (result : Host × CallResult). Good policy result.0) (is_serving r.lifecycle)
            _ _ (λ i. dispatch-Good name method r h (Fine-at policy h name r e g) g) (λ i. g))
  ]

  tell-Good :
      (f : Executor → Effect) (r : PluginRecord) (o : Option Executor) (h : Host)
      → ((e : Executor) → is_due h.trace (f e) ≡ was_started e h.trace)
      → r.executor ≡ o
      → Fine policy h r
      → Good policy h
      → Fine policy (tell f o h) r × Good policy (tell f o h)
  tell-Good f r none h due same s g = (s, g)
  tell-Good f r (some e) h due same s g = (
    Fine-effect policy h (f e) r s,
    effect-AreSound policy h.records h.trace (f e) (due e ∙ s.ran e same) g,
  )

  stop-Good :
      (r : PluginRecord) (h : Host) → Fine policy h r → Good policy h → Good policy (stop r h)
  stop-Good r h s g =
      let (s', g') = tell-Good shut_down r r.executor h (λ e. refl) refl s g in
      let h' = tell shut_down r.executor h in
      let r' : PluginRecord = record r { lifecycle = (shutdown none r.lifecycle).0 } in
      emit-Good policy plugin_state (codes r.name) (store r' h')
        (store-Good policy r' h' (stopped-IsSound policy h'.trace r s') g')

  shutdown_record-Good :
      (r : PluginRecord) (h : Host)
      → Fine policy h r
      → Good policy h
      → Good policy (shutdown_record r h)
  unfolding shutdown_record
  shutdown_record-Good r h s g =
      let r' = advanced draining r in
      let s' = advanced-IsSound policy h.trace draining r (λ e. cc) s in
      let (s2, g2) =
        tell-Good drained r' r.executor (store r' h) (λ e. refl) refl s'
          (store-Good policy r' h s' g) in
      if-holds (Good policy) (is_serving r.lifecycle) _ _ (λ i. stop-Good r' (drain r h) s2 g2)
        (λ i. stop-Good r h s g)

  shutdown_plugin-Good :
      (name : String) (h : Host) → Good policy h → Good policy (shutdown_plugin name h)
  unfolding shutdown_plugin
  shutdown_plugin-Good name h g = elim (Option-cases (get name h.records)) [
    | inl e ↦ rw (e, shutdown_plugin) g
    | inr (r, e) ↦
        rw (e, shutdown_plugin) (shutdown_record-Good r h (Fine-at policy h name r e g) g)
  ]

  shutdown_names-Good :
      (names : List String) (h : Host) → Good policy h → Good policy (shutdown_names names h)
  unfolding shutdown_names
  shutdown_names-Good [] h g = g
  shutdown_names-Good (name ∷ names) h g =
      shutdown_names-Good names (shutdown_plugin name h) (shutdown_plugin-Good name h g)

  reject-Good :
      (dir : Text) (code : RejectionCode) (h : Host)
      → Good policy h
      → Good policy (reject dir code h)
  unfolding reject
  reject-Good dir code h g =
      effect-AreSound policy h.records h.trace (emitted plugin_rejected dir) refl g

  new_record-Fine :
      (root : Text) (manifest : Manifest) (digest : Text) (h : Host)
      → Fine policy h (new_record root manifest digest)
  unfolding is_serving new LifecycleState-discrete no_capabilities
  new_record-Fine root manifest digest h = record {
    named = refl;
    logged = new-IsConsistent;
    ready = λ i. ground (arith, i);
    least = λ c i. ground (arith, i);
    ran = λ e i. ground (arith, i);
  }

  admit_unique-Good :
      (dir root : Text) (manifest : Manifest) (digest : Text) (h : Host) (t : TrustResult)
      → Good policy h
      → Good policy (admit_unique platform policy dir root manifest digest h t)
  unfolding reject
  admit_unique-Good dir root manifest digest h (refused code) g =
      reject-Good dir (not_trusted code) h g
  admit_unique-Good dir root manifest digest h trusted g =
      let r = new_record root manifest digest in
      if-holds (Good policy) (is_known manifest.name h) _ _
        (λ i. reject-Good dir name_duplicate h g)
        (λ i.
          emit-Good policy plugin_discovered (codes manifest.name) (store r h)
            (store-Good policy r h (new_record-Fine root manifest digest h) g))

  admit_digest-Good :
      (dir root : Text) (manifest : Manifest) (o : Option Text) (h : Host)
      → Good policy h
      → Good policy (host_of (admit_digest platform policy dir root manifest o h))
  admit_digest-Good dir root manifest none h g = g
  admit_digest-Good dir root manifest (some digest) h g =
      let (registry, unique) =
        record_digest (codes manifest.name) (codes manifest.version) digest h.registry in
      admit_unique-Good dir root manifest digest (record h { registry = registry }) unique g

  admit_loaded-Good :
      (dir : Text) (l : Loaded) (h : Host)
      → Good policy h
      → Good policy (host_of (admit_loaded platform policy dir l h))
  unfolding reject
  admit_loaded-Good dir (unloadable code) h g = reject-Good dir (manifest_invalid code) h g
  admit_loaded-Good dir (loaded root manifest) h g =
      admit_digest-Good dir root manifest (plugin_digest platform root sha256) h g

  admit-Good :
      (dir : Text) (h : Host) → Good policy h → Good policy (host_of (admit platform policy dir h))
  unfolding admit
  admit-Good dir h g = checked (provenance_of platform policy dir)
    where
      checked : (t : TrustResult) → Good policy (host_of (admit_checked platform policy dir t h))
      checked (refused code) = reject-Good dir (not_trusted code) h g
      checked trusted = admit_loaded-Good dir (platform.load_manifest dir) h g

  discovery_rest-Good :
      (d : Discovery) (next : Host → Discovery)
      → ((h : Host) → Good policy h → Good policy (host_of (next h)))
      → Good policy (host_of d)
      → Good policy (host_of (elim d [ going h ↦ next h | thrown h ↦ thrown h ]))
  discovery_rest-Good (going h) next f g = f h g
  discovery_rest-Good (thrown h) next f g = g

  admit_entry-Good :
      (root : Text) (e : Text × Bool) (h : Host)
      → Good policy h
      → Good policy (host_of (admit_entry platform policy root e h))
  admit_entry-Good root (name, is_directory) h g =
      if-holds (λ d. Good policy (host_of d)) is_directory _ _
        (λ i. admit-Good (platform.join root name) h g) (λ i. g)

  admit_entries-Good :
      (root : Text) (entries : List (Text × Bool)) (h : Host)
      → Good policy h
      → Good policy (host_of (admit_entries platform policy root entries h))
  unfolding admit_entries
  admit_entries-Good root [] h g = g
  admit_entries-Good root (e ∷ more) h g =
      discovery_rest-Good (admit_entry platform policy root e h)
        (admit_entries platform policy root more) (admit_entries-Good root more)
        (admit_entry-Good root e h g)

  discover_roots-Good :
      (roots : List Text) (h : Host)
      → Good policy h
      → Good policy (host_of (discover_roots platform policy roots h))
  unfolding discover_roots
  discover_roots-Good [] h g = g
  discover_roots-Good (root ∷ roots) h g =
      discovery_rest-Good (discover_root platform policy root (platform.entries root) h)
        (discover_roots platform policy roots) (discover_roots-Good roots)
        (at_root (platform.entries root))
    where
      at_root :
          (o : Option (List (Text × Bool)))
          → Good policy (host_of (discover_root platform policy root o h))
      at_root none = reject-Good root root_missing h g
      at_root (some listed) = admit_entries-Good root (sort entry_lt listed) h g

  handle-Good :
      (request : Request) (h : Host)
      → Good policy h
      → Good policy (handle platform policy request h)
  unfolding handle discover shutdown_all
  handle-Good discover_request h g = discover_roots-Good policy.provenance.plugin_roots h g
  handle-Good shutdown_all_request h g = shutdown_names-Good (names_of h.records) h g
  handle-Good (activate_request name) h g = activate-Good platform policy name h g
  handle-Good (call_request name method) h g = call-Good name method h g
  handle-Good (shutdown_request name) h g = shutdown_plugin-Good name h g

  handle_all-Good :
      (requests : List Request) (h : Host)
      → Good policy h
      → Good policy (handle_all platform policy requests h)
  unfolding handle_all
  handle_all-Good [] h g = g
  handle_all-Good (r ∷ rs) h g = handle_all-Good rs _ (handle-Good r h g)

  -- Whatever is asked of a new host, and in whatever order: every plugin stands under its own name
  -- with a log of its lifecycle, serves only with an executor that was started, and holds only
  -- capabilities that its manifest declares and the operator grants to its name; and no executor
  -- is called, drained or shut down before it is started.
  pub handle_all-AreSound :
      (requests : List Request)
      → AreSound policy
          (handle_all platform policy requests empty_host).records
          (handle_all platform policy requests empty_host).trace
  unfolding empty_host get
  handle_all-AreSound requests =
      handle_all-Good requests empty_host
        (record { each = λ name r i. ground (arith, i); ordered = refl })
