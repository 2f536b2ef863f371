-- ===== src/PluginHost/Host/Gates.antt =====
-- The gates of activate, and a second activation, packages/plugin-host/src/host.ts.
use prime_system.Base.{
  codes, ◌+◌, ℕ, Text, String, string_eq, ◌≡◌, refl, ap, ◌∙◌, ◌⊎◌, inl, inr, arith, Bool, true,
  false, ◌||◌, List, [], ◌∷◌, ◌++◌, Option, none, some, any, eqb, List-cases, Bool-cases,
}
use prime_system.Base.Maps.{get}
use prime_system.Base.Objects.{inherits}
use prime_system.PluginHost.Lifecycle.{
  authorized, LifecycleState, verified, dependencies_resolved, initialized, healthy, serving,
  is_terminal, PluginLifecycle, advance,
}
use prime_system.PluginHost.Capabilities.{Authorization, authorize_capabilities}
use prime_system.PluginHost.Events.{plugin_authorized}
use prime_system.PluginHost.Trust.{TrustResult, trusted, refused}
use prime_system.PluginHost.Host.{
  Platform, HostPolicy, Host, PluginRecord, Effect, started, emitted, state_of, emit,
  provides_accepted,
}
use prime_system.PluginHost.Host.Activate.{
  ActivationCode, provides_not_accepted, signature_refused, dependency_unresolved,
  capability_malformed, activated, advanced, abort, missing_dependencies, grants_for, granted_to,
  grant_from, initialize, grant, authorize, resolve, after_verify, verdict_on, activate_record,
  activate,
}
use prime_system.PluginHost.Host.Laws.{state_of-store}

abbrev pub is_start : ℕ → Effect → Bool
is_start n (started e plugin) = eqb e n
is_start n _ = false

abbrev pub was_started : ℕ → List Effect → Bool
was_started n trace = any (is_start n) trace

pub was_started-append :
    (n : ℕ) (xs ys : List Effect)
    → was_started n (xs ++ ys) ≡ (was_started n xs || was_started n ys)
was_started-append n [] ys = refl
was_started-append n (x ∷ xs) ys = ground (arith, was_started-append n xs ys)

-- An activation starts no executor that was not started before.
abbrev pub Quiet : Host → Host → Type 0
Quiet h h' = (n : ℕ) → was_started n h'.trace ≡ was_started n h.trace

Quiet-emit : (kind : _) (plugin : Text) (h : Host) → Quiet h (emit kind plugin h)
Quiet-emit kind plugin h n = was_started-append n h.trace (emitted kind plugin ∷ []) ∙ ground arith

abort-Quiet : (r : PluginRecord) (code : ActivationCode) (h : Host) → Quiet h (abort r code h).0
unfolding abort
abort-Quiet r code h n = Quiet-emit _ _ h n

abbrev is_over : PluginLifecycle → Bool
is_over l = is_terminal l.current

abbrev is_gone : PluginRecord → Bool
is_gone r = is_over r.lifecycle

module _ (platform : Platform) (policy : HostPolicy) where
  -- What the gates before an executor ask for.
  pub record IsCleared (r : PluginRecord) (h : Host) : Type 0 where
    pub signed : verdict_on platform policy r ≡ some trusted
    pub resolved : missing_dependencies r h ≡ []
    pub accepted : provides_accepted r.manifest.provides policy.accepted_provides ≡ true
    pub given : inherits r.name policy.capability_grants ≡ false
    pub well_formed :
        (authorize_capabilities r.manifest.capabilities (granted_to policy r.name)).malformed ≡ []

  abbrev auth_of : PluginRecord → Authorization
  auth_of r = authorize_capabilities r.manifest.capabilities (granted_to policy r.name)

  -- The grants are read, and no capability is malformed.
  abbrev IsGiven : PluginRecord → Type 0
  IsGiven r = (inherits r.name policy.capability_grants ≡ false) × ((auth_of r).malformed ≡ [])

  grant-gate :
      (r : PluginRecord) (h : Host)
      → (auth_of r).malformed ≡ [] ⊎ Quiet h (grant platform policy r (auth_of r) h).0
  grant-gate r h = elim (List-cases (auth_of r).malformed) [
    | inl m ↦ inl m
    | inr (c, cs, m) ↦ inr (rw m (abort-Quiet r (capability_malformed (c ∷ cs)) h))
  ]

  grant_from-gate :
      (r : PluginRecord) (h : Host)
      → IsGiven r ⊎ Quiet h (grant_from platform policy r (grants_for policy r.name) h).0
  grant_from-gate r h = elim (Bool-cases (inherits r.name policy.capability_grants)) [
    | inl e ↦ inr (rw e (λ n. refl))
    | inr e ↦ elim (grant-gate r h) [ inl m ↦ inl (e, m) | inr q ↦ inr (rw e q) ]
  ]

  authorize-gate :
      (r : PluginRecord) (h : Host)
      → ((provides_accepted r.manifest.provides policy.accepted_provides ≡ true) × IsGiven r)
        ⊎ Quiet h (authorize platform policy r h).0
  unfolding authorize
  authorize-gate r h =
      elim (Bool-cases (provides_accepted r.manifest.provides policy.accepted_provides)) [
        | inl p ↦ elim (grant_from-gate r h) [
          | inl m ↦ inl (p, m)
          | inr q ↦ inr (rw (p, authorize) q)
        ]
        | inr p ↦ inr (rw (p, authorize) (abort-Quiet r provides_not_accepted h))
      ]

  resolve-gate :
      (r : PluginRecord) (h : Host)
      → ((missing_dependencies r h ≡ [])
          × (provides_accepted r.manifest.provides policy.accepted_provides ≡ true)
          × IsGiven r)
        ⊎ Quiet h (resolve platform policy r h).0
  unfolding resolve
  resolve-gate r h = elim (List-cases (missing_dependencies r h)) [
    | inl m ↦ elim (authorize-gate (advanced dependencies_resolved r) h) [
      | inl (p, w) ↦ inl (m, p, w)
      | inr q ↦ inr (rw (m, resolve) q)
    ]
    | inr (c, cs, m) ↦ inr (rw (m, resolve) (abort-Quiet r (dependency_unresolved (c ∷ cs)) h))
  ]

  after_verify-gate :
      (r : PluginRecord) (h : Host) (v : Option TrustResult)
      → verdict_on platform policy r ≡ v
      → IsCleared r h ⊎ Quiet h (after_verify platform policy r h v).0
  after_verify-gate r h none e = inr (λ n. refl)
  after_verify-gate r h (some (refused code)) e = inr (abort-Quiet r (signature_refused code) h)
  after_verify-gate r h (some trusted) e = elim (resolve-gate (advanced verified r) h) [
    | inl (m, p, (g, w)) ↦
        inl (record { signed = e; resolved = m; accepted = p; given = g; well_formed = w })
    | inr q ↦ inr q
  ]

  -- Whatever state a plugin is in, its activation starts an executor only if its signature is
  -- trusted, every dependency has a record, the host accepts all that it provides, its grants are
  -- read without an error and no capability is malformed; otherwise the executors that were started are those of before.
  pub activate-gates :
      (name : String) (r : PluginRecord) (h : Host)
      → get name h.records ≡ some r
      → IsCleared r h ⊎ Quiet h (activate platform policy name h).0
  unfolding activate activate_record
  activate-gates name r h e =
      rw (e, activate) (after_verify-gate r h (verdict_on platform policy r) refl)

  advance-terminal :
      (to : LifecycleState) (l : PluginLifecycle)
      → is_terminal l.current ≡ true
      → (advance to l).0 ≡ l
  unfolding advance
  advance-terminal to l h = ground (arith, h)

  advanced-terminal :
      (to : LifecycleState) (r : PluginRecord)
      → is_terminal r.lifecycle.current ≡ true
      → advanced to r ≡ r
  advanced-terminal to r h =
      ap (λ l. record r { lifecycle = l }) (advance-terminal to r.lifecycle h)

  initialize-terminal :
      (r : PluginRecord) (h : Host)
      → is_terminal r.lifecycle.current ≡ true
      → platform.has_mode r.manifest.mode ≡ true
      → platform.start_error h.created ≡ none
      → ((initialize platform policy r h).1 ≡ activated)
        × (state_of r.name (initialize platform policy r h).0 ≡ some r.lifecycle.current)
        × (was_started h.created (initialize platform policy r h).0.trace ≡ true)
  unfolding initialize state_of
  initialize-terminal r h t m s =
      let r' : PluginRecord = record r { executor = some h.created } in
      let h' : Host = record h {
        created = h.created + 1;
        trace = h.trace ++ started h.created r.name ∷ [];
      } in
      rw (m, s, initialize)
        (
          refl,
          state_of-store (advanced serving (advanced healthy (advanced initialized r'))) h'
              ∙ ap (λ (x : PluginRecord). some x.lifecycle.current)
                  (ap (λ x. advanced serving (advanced healthy x))
                      (advanced-terminal initialized r' t)
                    ∙ ap (advanced serving) (advanced-terminal healthy r' t)
                    ∙ advanced-terminal serving r' t),
          was_started-append h.created (h.trace ++ started h.created r.name ∷ []) _
              ∙ ground
                  (arith, was_started-append h.created h.trace (started h.created r.name ∷ [])),
        )

  -- A failed or stopped plugin that passes the gates, in a sandbox that starts, is answered as
  -- activated and its executor is started, although it stays failed or stopped.
  pub activate-terminal :
      (r : PluginRecord) (h : Host)
      → get r.name h.records ≡ some r
      → is_terminal r.lifecycle.current ≡ true
      → IsCleared r h
      → platform.has_mode r.manifest.mode ≡ true
      → platform.start_error h.created ≡ none
      → ((activate platform policy r.name h).1 ≡ activated)
        × (state_of r.name (activate platform policy r.name h).0 ≡ some r.lifecycle.current)
        × (was_started h.created (activate platform policy r.name h).0.trace ≡ true)
  unfolding activate activate_record resolve authorize
  activate-terminal r h e t c m s =
      let r1 = advanced verified r in
      let r2 = advanced dependencies_resolved r1 in
      let r3 = advanced authorized (record r2 { grants = (auth_of r).grants }) in
      let same1 = advanced-terminal verified r t in
      let same2 = advanced-terminal dependencies_resolved r1 (ap is_gone same1 ∙ t) ∙ same1 in
      let same3 =
        ap PluginRecord.lifecycle (
          advanced-terminal authorized (record r2 { grants = (auth_of r).grants })
            (ap is_gone same2 ∙ t))
        ∙ ap PluginRecord.lifecycle same2 in
      let (ok, state, ran) =
        initialize-terminal r3 (emit plugin_authorized (codes r.name) h) (ap is_over same3 ∙ t) m
          s in
      rw (e, activate, c.signed, c.resolved, resolve, c.accepted, authorize, c.given, c.well_formed)
        (ok, state ∙ ap (λ (l : PluginLifecycle). some l.current) same3, ran)
