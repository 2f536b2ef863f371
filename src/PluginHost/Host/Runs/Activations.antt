-- ===== src/PluginHost/Host/Runs/Activations.antt =====
-- The activations of a host of packages/plugin-host/src/host.ts, stage by stage.
use prime_system.Base.{
  ◌+◌, Text, String, string_eq, codes, ◌≡◌, refl, sym, ◌∙◌, arith, true, [], ◌∷◌, ◌++◌, Option,
  none, some, if-holds, Bool-cases, Option-cases, List-cases, inl, inr,
}
use mathlib.Core.Path.{subst}
use prime_system.Base.Maps.{get}
use prime_system.Base.Objects.{inherits}
use prime_system.PluginHost.Lifecycle.{
  verified, dependencies_resolved, authorized, initialized, healthy, serving, fail,
}
use prime_system.PluginHost.Capabilities.{authorize_capabilities}
use prime_system.PluginHost.Events.{HostEventKind, plugin_authorized}
use prime_system.PluginHost.Trust.{TrustResult, trusted, refused}
use prime_system.PluginHost.Host.{
  Platform, HostPolicy, Host, PluginRecord, Effect, emitted, started, emit, store,
  provides_accepted,
}
use prime_system.PluginHost.Host.Activate.{
  ActivationCode, Activation, capability_malformed, dependency_unresolved, signature_refused,
  provides_not_accepted, sandbox_mode_unsupported, initialize_failed, code_name, advanced, abort,
  grants_for, granted_to, grant_from, missing_dependencies, serve, after_start, initialize, grant,
  authorize, resolve, after_verify, verdict_on, activate_record, activate,
}
use prime_system.PluginHost.Host.Calls.{act}
use prime_system.PluginHost.Host.Gates.{was_started-append}
use prime_system.PluginHost.Host.Runs.{
  has_executor, IsSound, AreSound, effect-AreSound, set-AreSound, advanced-IsSound, serving-IsSound,
  failed-IsSound, granted-IsSound,
}

module _ (policy : HostPolicy) where
  abbrev pub Good : Host → Type 0
  Good h = AreSound policy h.records h.trace

  abbrev pub Fine : Host → PluginRecord → Type 0
  Fine h r = IsSound policy h.trace r.name r

  pub emit-Good :
      (kind : HostEventKind) (plugin : Text) (h : Host) → Good h → Good (emit kind plugin h)
  emit-Good kind plugin h g = effect-AreSound policy h.records h.trace (emitted kind plugin) refl g

  pub store-Good : (r : PluginRecord) (h : Host) → Fine h r → Good h → Good (store r h)
  store-Good r h s g = set-AreSound policy h.records h.trace r s g

  abort-Good :
      (r : PluginRecord) (code : ActivationCode) (h : Host)
      → Fine h r
      → Good h
      → Good (abort r code h).0
  unfolding abort
  abort-Good r code h s g =
      let r' : PluginRecord = record r { lifecycle = (fail (code_name code) r.lifecycle).0 } in
      emit-Good _ _ (store r' h)
        (store-Good r' h (failed-IsSound policy h.trace (code_name code) r s) g)

  serve-Good :
      (r : PluginRecord) (h : Host)
      → has_executor r.executor ≡ true
      → Fine h r
      → Good h
      → Good (serve r h).0
  serve-Good r h x s g =
      let s1 = advanced-IsSound policy h.trace initialized r (λ e. cc) s in
      let s2 = advanced-IsSound policy h.trace healthy (advanced initialized r) (λ e. cc) s1 in
      let r' = advanced serving (advanced healthy (advanced initialized r)) in
      emit-Good _ _ (store r' h) (
        store-Good r' h
          (serving-IsSound policy h.trace (advanced healthy (advanced initialized r)) x s2) g)

  after_start-Good :
      (r : PluginRecord) (h : Host) (o : Option Text)
      → has_executor r.executor ≡ true
      → Fine h r
      → Good h
      → Good (after_start r h o).0
  after_start-Good r h none x s g = serve-Good r h x s g
  after_start-Good r h (some error) x s g = abort-Good r (initialize_failed error) h s g

  pub Fine-effect : (h : Host) (x : Effect) (r : PluginRecord) → Fine h r → Fine (act x h) r
  Fine-effect h x r s = record {
    named = refl;
    logged = s.logged;
    ready = s.ready;
    least = s.least;
    ran = λ e i. was_started-append e h.trace (x ∷ []) ∙ ground (arith, s.ran e i);
  }

  pub Fine-at :
      (h : Host) (name : String) (r : PluginRecord)
      → get name h.records ≡ some r
      → Good h
      → Fine h r
  Fine-at h name r e g =
      let s = g.each name r e in subst (λ k. IsSound policy h.trace k r) (sym s.named) s

module _ (platform : Platform) (policy : HostPolicy) where
  initialize-Good :
      (r : PluginRecord) (h : Host)
      → Fine policy h r
      → Good policy h
      → Good policy (initialize platform policy r h).0
  unfolding initialize
  initialize-Good r h s g =
      let r' : PluginRecord = record r { executor = some h.created } in
      let x = started h.created r.name in
      let h' : Host = record h { created = h.created + 1; trace = h.trace ++ x ∷ [] } in
      let s' : Fine policy h' r' = record {
        named = refl;
        logged = s.logged;
        ready = λ i. refl;
        least = s.least;
        ran = λ e i. was_started-append e h.trace (x ∷ []) ∙ ground (arith, i);
      } in
      if-holds (λ (result : Host × Activation). Good policy result.0)
        (platform.has_mode r.manifest.mode) _ _
        (λ m.
          after_start-Good policy r' h' (platform.start_error h.created) refl s'
            (effect-AreSound policy h.records h.trace x refl g))
        (λ m. abort-Good policy r sandbox_mode_unsupported h s g)

  grant-Good :
      (r : PluginRecord) (h : Host)
      → Fine policy h r
      → Good policy h
      → Good policy
          (grant platform policy r
            (authorize_capabilities r.manifest.capabilities (granted_to policy r.name))
            h).0
  grant-Good r h s g =
      let a = authorize_capabilities r.manifest.capabilities (granted_to policy r.name) in
      let r' : PluginRecord = record r { grants = a.grants } in
      let s' : Fine policy h (advanced authorized r') =
        advanced-IsSound policy h.trace authorized r' (λ e. cc)
          (granted-IsSound policy h.trace r s) in
      elim (List-cases a.malformed) [
        | inl m ↦ rw m (
            initialize-Good (advanced authorized r') (emit plugin_authorized (codes r.name) h)
              (Fine-effect policy h _ (advanced authorized r') s') (emit-Good policy _ _ h g))
        | inr (c, cs, m) ↦ rw m (abort-Good policy r (capability_malformed (c ∷ cs)) h s g)
      ]

  grant_from-Good :
      (r : PluginRecord) (h : Host)
      → Fine policy h r
      → Good policy h
      → Good policy (grant_from platform policy r (grants_for policy r.name) h).0
  grant_from-Good r h s g = elim (Bool-cases (inherits r.name policy.capability_grants)) [
    | inl e ↦ rw e (store-Good policy r h s g)
    | inr e ↦ rw e (grant-Good r h s g)
  ]

  authorize-Good :
      (r : PluginRecord) (h : Host)
      → Fine policy h r
      → Good policy h
      → Good policy (authorize platform policy r h).0
  unfolding authorize
  authorize-Good r h s g =
      if-holds (λ (result : Host × Activation). Good policy result.0)
        (provides_accepted r.manifest.provides policy.accepted_provides) _ _
        (λ p. grant_from-Good r h s g) (λ p. abort-Good policy r provides_not_accepted h s g)

  resolve-Good :
      (r : PluginRecord) (h : Host)
      → Fine policy h r
      → Good policy h
      → Good policy (resolve platform policy r h).0
  unfolding resolve
  resolve-Good r h s g = elim (List-cases (missing_dependencies r h)) [
    | inl m ↦
        rw (m, resolve)
          (authorize-Good (advanced dependencies_resolved r) h
            (advanced-IsSound policy h.trace dependencies_resolved r (λ e. cc) s) g)
    | inr (c, cs, m) ↦ rw (m, resolve) (abort-Good policy r (dependency_unresolved (c ∷ cs)) h s g)
  ]

  after_verify-Good :
      (r : PluginRecord) (h : Host) (v : Option TrustResult)
      → Fine policy h r
      → Good policy h
      → Good policy (after_verify platform policy r h v).0
  after_verify-Good r h none s g = g
  after_verify-Good r h (some (refused code)) s g =
      abort-Good policy r (signature_refused code) h s g
  after_verify-Good r h (some trusted) s g =
      resolve-Good (advanced verified r) h (advanced-IsSound policy h.trace verified r (λ e. cc) s)
        g

  pub activate-Good :
      (name : String) (h : Host) → Good policy h → Good policy (activate platform policy name h).0
  unfolding activate activate_record
  activate-Good name h g = elim (Option-cases (get name h.records)) [
    | inl e ↦ rw (e, activate) g
    | inr (r, e) ↦
        rw (e, activate)
          (after_verify-Good r h (verdict_on platform policy r) (Fine-at policy h name r e g) g)
  ]
