-- ===== src/PluginHost/Host/Activate.antt =====
-- activate and abort of packages/plugin-host/src/host.ts.
use prime_system.Base.{
  ◌+◌, Text, String, string_eq, codes, true, not, List, [], ◌∷◌, ◌++◌, Option, none, some,
  if◌then◌else◌, filter, str_lt,
}
use prime_system.Base.Maps.{get}
use prime_system.Base.Objects.{inherits}
use prime_system.Base.Sorting.{sort}
use prime_system.PluginHost.Lifecycle.{
  LifecycleState, discovered, verified, dependencies_resolved, authorized, initialized, healthy,
  serving, advance, fail,
}
use prime_system.PluginHost.Capabilities.{Authorization, authorize_capabilities}
use prime_system.PluginHost.Events.{plugin_authorized, plugin_state, plugin_failed}
use prime_system.PluginHost.Trust.{
  SignaturePolicy, TrustRefusalCode, TrustResult, trusted, refused, verify_plugin_signature,
}
use prime_system.PluginHost.Host.{
  Platform, HostPolicy, Host, PluginRecord, emit, store, started, provides_accepted, is_known,
  plugin_digest,
}

pub data ActivationCode : Type 0 where
  plugin_unknown provides_not_accepted sandbox_mode_unsupported : ActivationCode
  signature_refused : TrustRefusalCode → ActivationCode
  dependency_unresolved capability_malformed : List String → ActivationCode
  initialize_failed : Text → ActivationCode

pub data Activation : Type 0 where
  activated : Activation
  not_activated : (at : LifecycleState) → ActivationCode → Activation
  activation_thrown : Activation

-- The detail with which a lifecycle fails, by its code.
abbrev pub code_name : ActivationCode → String
code_name plugin_unknown = "PLUGIN_UNKNOWN"
code_name provides_not_accepted = "PROVIDES_NOT_ACCEPTED"
code_name sandbox_mode_unsupported = "SANDBOX_MODE_UNSUPPORTED"
code_name (signature_refused code) = "SIGNATURE_REFUSED"
code_name (dependency_unresolved missing) = "DEPENDENCY_UNRESOLVED"
code_name (capability_malformed malformed) = "CAPABILITY_MALFORMED"
code_name (initialize_failed error) = "INITIALIZE_FAILED"

-- DEFAULT_SIGNATURE_POLICY
abbrev pub default_signature_policy : SignaturePolicy
default_signature_policy = record {
  require_signature = true;
  algorithms = codes "sha256" ∷ codes "sha512" ∷ [];
}

abbrev pub signature_policy : HostPolicy → SignaturePolicy
signature_policy policy = elim policy.signature [
  | none ↦ default_signature_policy
  | some given ↦ given
]

-- What the operator grants to a plugin of the name.
abbrev pub granted_to : HostPolicy → String → List String
granted_to policy name = elim (get name policy.capability_grants) [ none ↦ [] | some cs ↦ cs ]

-- `capabilityGrants[name] ?? []`, read by authorizeCapabilities; `none` is the error that it throws
-- on a value that is no list, which an inherited name gives.
abbrev pub grants_for : HostPolicy → String → Option (List String)
grants_for policy name =
    if inherits name policy.capability_grants then none else some (granted_to policy name)

-- `record.lifecycle.advance(to)`: what it answers is not looked at.
abbrev pub advanced : LifecycleState → PluginRecord → PluginRecord
advanced to r = record r { lifecycle = (advance to r.lifecycle).0 }

-- `abort`
unfoldable pub abort : PluginRecord → ActivationCode → Host → Host × Activation
abort r code h = (
  emit plugin_failed (codes r.name)
      (store (record r { lifecycle = (fail (code_name code) r.lifecycle).0 }) h),
  not_activated r.lifecycle.current code,
)

-- The keys of the dependencies that no record answers, sorted.
abbrev pub missing_dependencies : PluginRecord → Host → List String
missing_dependencies r h =
    sort str_lt (filter (λ dep. not (is_known dep h)) r.manifest.dependencies)

abbrev pub serve : PluginRecord → Host → Host × Activation
serve r h = (
  emit plugin_state (codes r.name)
      (store (advanced serving (advanced healthy (advanced initialized r))) h),
  activated,
)

abbrev pub after_start : PluginRecord → Host → Option Text → Host × Activation
after_start r h none = serve r h
after_start r h (some error) = abort r (initialize_failed error) h

module _ (platform : Platform) (policy : HostPolicy) where
  -- `createExecutor` and `start`
  unfoldable pub initialize : PluginRecord → Host → Host × Activation
  initialize r h =
      if platform.has_mode r.manifest.mode
      then after_start (record r { executor = some h.created })
          (record h { created = h.created + 1; trace = h.trace ++ started h.created r.name ∷ [] })
          (platform.start_error h.created)
      else abort r sandbox_mode_unsupported h

  abbrev pub grant : PluginRecord → Authorization → Host → Host × Activation
  grant r authorization h = elim authorization.malformed [
    | c ∷ cs ↦ abort r (capability_malformed (c ∷ cs)) h
    | [] ↦
        initialize (advanced authorized (record r { grants = authorization.grants }))
          (emit plugin_authorized (codes r.name) h)
  ]

  -- A record that is left by what is thrown stays as far as it was advanced.
  abbrev pub grant_from : PluginRecord → Option (List String) → Host → Host × Activation
  grant_from r none h = (store r h, activation_thrown)
  grant_from r (some granted) h = grant r (authorize_capabilities r.manifest.capabilities granted) h

  unfoldable pub authorize : PluginRecord → Host → Host × Activation
  authorize r h =
      if provides_accepted r.manifest.provides policy.accepted_provides
      then grant_from r (grants_for policy r.name) h
      else abort r provides_not_accepted h

  unfoldable pub resolve : PluginRecord → Host → Host × Activation
  resolve r h = elim (missing_dependencies r h) [
    | dep ∷ deps ↦ abort r (dependency_unresolved (dep ∷ deps)) h
    | [] ↦ authorize (advanced dependencies_resolved r) h
  ]

  abbrev pub after_verify : PluginRecord → Host → Option TrustResult → Host × Activation
  after_verify r h none = (h, activation_thrown)
  after_verify r h (some (refused code)) = abort r (signature_refused code) h
  after_verify r h (some trusted) = resolve (advanced verified r) h

  abbrev pub verdict_on : PluginRecord → Option TrustResult
  verdict_on r =
      verify_plugin_signature (plugin_digest platform) r.root r.manifest.signature
        (signature_policy policy)

  unfoldable pub activate_record : PluginRecord → Host → Host × Activation
  activate_record r h = after_verify r h (verdict_on r)

  -- `activate`
  unfoldable pub activate : String → Host → Host × Activation
  activate name h = elim (get name h.records) [
    | none ↦ (h, not_activated discovered plugin_unknown)
    | some r ↦ activate_record r h
  ]
