-- ===== src/PluginHost/Host.antt =====
-- packages/plugin-host/src/host.ts. The file system, the hash function, the reading of a manifest and the
-- sandboxes are parameters. A refusal has its code; the texts of the reasons are left out. The scope
-- of the policy has a key, so that no event throws; what throws besides is a result of its own. A clock is not modelled.
pub mod Activate
pub mod Calls
pub mod Laws
pub mod Gates
pub mod Runs
pub mod Stopping
use prime_system.Base.{
  ℕ, ◌+◌, Text, String, string_eq, codes, Bool, true, false, not, ◌&&◌, ◌||◌, List, [], ◌∷◌, ◌++◌,
  Option, none, some, if◌then◌else◌, any, every, filter, map, same_text, text_lt, includes,
}
use prime_system.Base.Maps.{get, set}
use prime_system.Base.Sorting.{sort}
use prime_system.PluginHost.Lifecycle.{LifecycleState, PluginLifecycle, new}
use prime_system.PluginHost.Capabilities.{CapabilityGrantSet, no_capabilities}
use prime_system.PluginHost.Events.{HostEventKind, plugin_discovered, plugin_rejected}
use prime_system.PluginHost.Trust.{
  ProvenancePolicy, SignaturePolicy, TrustRefusalCode, TrustResult, trusted, refused,
  DigestRegistry, check_provenance, record_digest, before_colon,
}
use prime_system.PluginHost.Trust.Digest.{Entries, compute_plugin_digest}

-- What the host reads of a manifest; `dependencies` are the keys of its dependencies.
pub record Manifest : Type 0 where
  pub name : String
  pub version : String
  pub provides : List String
  pub capabilities : List String
  pub dependencies : List String
  pub signature : Option Text
  pub mode : String

-- `loadManifest`: the real root with the manifest, or the code of the first diagnostic.
pub data Loaded : Type 0 where
  loaded : Text → Manifest → Loaded
  unloadable : String → Loaded

-- An executor is named by the number of those that were created before it.
abbrev pub Executor : Type 0
Executor = ℕ

pub data CallResult : Type 0 where
  answered : Text → CallResult
  call_refused : (code : String) → CallResult

-- What stands outside of this file: paths and files, hashes, manifests and sandboxes.
pub record Platform : Type 0 where
  pub separator : Text
  pub relative : Text → Text → Text
  pub real_path : Text → Option Text
  pub join : Text → Text → Text
  -- The entries of a directory that is there, each with whether it is a directory.
  pub entries : Text → Option (List (Text × Bool))
  pub load_manifest : Text → Loaded
  -- The tree of a directory, unless reading it throws, and the hash by an algorithm that is known.
  pub read_tree : Text → Option Entries
  pub hash : Text → Text → Option Text
  pub has_mode : String → Bool
  -- The error with which an executor fails to start, if it does.
  pub start_error : Executor → Option Text
  pub reply : Executor → String → CallResult

-- `computePluginDigest`
abbrev pub plugin_digest : Platform → Text → Text → Option Text
plugin_digest platform = compute_plugin_digest platform.separator platform.read_tree platform.hash

pub record HostPolicy : Type 0 where
  pub provenance : ProvenancePolicy
  pub accepted_provides : List String
  pub capability_grants : List (String × List String)
  pub signature : Option SignaturePolicy

pub data RejectionCode : Type 0 where
  root_missing name_duplicate : RejectionCode
  not_trusted : TrustRefusalCode → RejectionCode
  manifest_invalid : String → RejectionCode

pub record RejectedPlugin : Type 0 where
  pub dir : Text
  pub code : RejectionCode

pub record PluginRecord : Type 0 where
  pub name : String
  pub root : Text
  pub manifest : Manifest
  pub digest : Text
  pub lifecycle : PluginLifecycle
  pub grants : CapabilityGrantSet
  pub executor : Option Executor

-- What the host does to the outside, in order: the events it emits and the calls of executors.
pub data Effect : Type 0 where
  emitted : HostEventKind → (plugin : Text) → Effect
  started : Executor → (plugin : String) → Effect
  called : Executor → (method : String) → Effect
  drained shut_down : Executor → Effect

pub record Host : Type 0 where
  pub registry : DigestRegistry
  pub records : List (String × PluginRecord)
  pub rejections : List RejectedPlugin
  pub created : ℕ
  pub trace : List Effect

-- A host that goes on with its discovery, or one whose discovery has thrown.
pub data Discovery : Type 0 where
  going thrown : Host → Discovery

abbrev pub host_of : Discovery → Host
host_of (going h) = h
host_of (thrown h) = h

unfoldable pub empty_host : Host
empty_host = record { registry = []; records = []; rejections = []; created = 0; trace = [] }

-- `stateOf`
unfoldable pub state_of : String → Host → Option LifecycleState
state_of name h = elim (get name h.records) [ none ↦ none | some r ↦ some r.lifecycle.current ]

abbrev pub emit : HostEventKind → Text → Host → Host
emit kind plugin h = record h { trace = h.trace ++ emitted kind plugin ∷ [] }

-- A record is a shared object: what is written to it is seen in the map.
abbrev pub store : PluginRecord → Host → Host
store r h = record h { records = set r.name r h.records }

abbrev pub accepts_entry : List String → String → Bool
accepts_entry accepted entry =
    includes accepted entry || any (λ a. same_text (codes a) (before_colon (codes entry))) accepted

-- `providesAccepted`
unfoldable pub provides_accepted : List String → List String → Bool
provides_accepted provides accepted = every (accepts_entry accepted) provides

-- `reject`
unfoldable pub reject : Text → RejectionCode → Host → Host
reject dir code h =
    emit plugin_rejected dir
      (record h { rejections = h.rejections ++ record { dir = dir; code = code } ∷ [] })

abbrev pub new_record : Text → Manifest → Text → PluginRecord
new_record root manifest digest = record {
  name = manifest.name;
  root = root;
  manifest = manifest;
  digest = digest;
  lifecycle = new;
  grants = no_capabilities;
  executor = none;
}

abbrev pub is_known : String → Host → Bool
is_known name h = elim (get name h.records) [ none ↦ false | some r ↦ true ]

-- `"sha256"`, the algorithm of `computePluginDigest` where none is given.
abbrev pub sha256 : Text
sha256 = codes "sha256"

-- By name.
abbrev pub entry_lt : Text × Bool → Text × Bool → Bool
entry_lt a b = text_lt a.0 b.0

module _ (platform : Platform) (policy : HostPolicy) where
  abbrev pub provenance_of : Text → TrustResult
  provenance_of dir =
      check_provenance platform.separator platform.relative platform.real_path dir policy.provenance

  abbrev pub admit_unique : Text → Text → Manifest → Text → Host → TrustResult → Host
  admit_unique dir root manifest digest h (refused code) = reject dir (not_trusted code) h
  admit_unique dir root manifest digest h trusted =
      if is_known manifest.name h
      then reject dir name_duplicate h
      else emit plugin_discovered (codes manifest.name) (store (new_record root manifest digest) h)

  abbrev pub admit_digest : Text → Text → Manifest → Option Text → Host → Discovery
  admit_digest dir root manifest none h = thrown h
  admit_digest dir root manifest (some digest) h =
      let (registry, unique) =
        record_digest (codes manifest.name) (codes manifest.version) digest h.registry in
      going (admit_unique dir root manifest digest (record h { registry = registry }) unique)

  abbrev pub admit_loaded : Text → Loaded → Host → Discovery
  admit_loaded dir (unloadable code) h = going (reject dir (manifest_invalid code) h)
  admit_loaded dir (loaded root manifest) h =
      admit_digest dir root manifest (plugin_digest platform root sha256) h

  abbrev pub admit_checked : Text → TrustResult → Host → Discovery
  admit_checked dir (refused code) h = going (reject dir (not_trusted code) h)
  admit_checked dir trusted h = admit_loaded dir (platform.load_manifest dir) h

  -- `admit`
  unfoldable pub admit : Text → Host → Discovery
  admit dir h = admit_checked dir (provenance_of dir) h

  abbrev pub admit_entry : Text → Text × Bool → Host → Discovery
  admit_entry root (name, is_directory) h =
      if is_directory then admit (platform.join root name) h else going h

  -- The loop over the entries, which ends where one throws.
  unfoldable pub admit_entries : Text → List (Text × Bool) → Host → Discovery
  admit_entries root [] h = going h
  admit_entries root (e ∷ more) h = elim (admit_entry root e h) [
    | going h' ↦ admit_entries root more h'
    | thrown h' ↦ thrown h'
  ]

  abbrev pub discover_root : Text → Option (List (Text × Bool)) → Host → Discovery
  discover_root root none h = going (reject root root_missing h)
  discover_root root (some listed) h = admit_entries root (sort entry_lt listed) h

  -- `discover`
  unfoldable pub discover_roots : List Text → Host → Discovery
  discover_roots [] h = going h
  discover_roots (root ∷ roots) h = elim (discover_root root (platform.entries root) h) [
    | going h' ↦ discover_roots roots h'
    | thrown h' ↦ thrown h'
  ]

  unfoldable pub discover : Host → Discovery
  discover h = discover_roots policy.provenance.plugin_roots h
