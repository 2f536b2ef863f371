-- ===== src/PluginHost/Examples.antt =====
-- Concrete inputs of the plugin host.
use prime_system.Base.Maps.{get}
use prime_system.Base.Sorting.{sort, insert_sorted}
use prime_system.PluginHost.Capabilities.{is_alnum, is_segment_char}
use prime_system.PluginHost.Events.{
  Scope, scope_fields, fields_of, scope_key, blank_fields, is_blank, is_space, join_slash, encode,
  encode_char, is_unreserved, percents, percent, utf8, hex, HostEventInput, plugin_call, made,
  host_event,
}
use prime_system.PluginHost.Events.ScopeKeys.{split_slash, scope_key_fields}
use prime_system.PluginHost.Events.Laws.{IsWithheld, host_event-IsWithheld}
use prime_system.PluginHost.Trust.{
  TrustResult, registry_digest_conflict, ProvenancePolicy, trusted, DigestRegistry, record_digest,
  digest_of, verify_plugin_signature, before_colon,
}
use prime_system.PluginHost.Trust.Laws.{record_digest-keeps}
use prime_system.PluginHost.Trust.Digest.{entry, file, no_entries}
use prime_system.Base.Objects.{inherits}
use prime_system.PluginHost.Host.{
  Manifest, Platform, HostPolicy, Host, PluginRecord, loaded, answered, call_refused, new_record,
  empty_host, state_of, provides_accepted,
}
use prime_system.PluginHost.Host.Activate.{activate, activated}
use prime_system.PluginHost.Host.Calls.{
  call, shutdown_plugin, Request, discover_request, activate_request, call_request,
  shutdown_request, handle_all,
}
use prime_system.PluginHost.Host.Gates.{
  IsCleared, Quiet, was_started, activate-gates, activate-terminal,
}
use prime_system.PluginHost.Host.Stopping.{call-shutdown_plugin}
use prime_system.PluginHost.Host.Runs.{AreSound}
use prime_system.PluginHost.Host.Runs.Steps.{handle_all-AreSound}
use prime_system.Base.Strings.{same_text}
use prime_system.Base.{
  Option, ◌≢◌, some, none, codes, ◌++◌, map, Text, ◌⊎◌, String, ◌≡◌, refl, true, false, List, [],
  ◌∷◌, if◌then◌else◌,
}
use prime_system.PluginHost.Lifecycle.{
  stopped, LifecycleState-discrete, advance_op, advance_to_op, discovered, serving, failed,
  is_terminal, is_serving, new, advance, advance_to, Operation, apply, run, PluginLifecycle,
}
use prime_system.PluginHost.Lifecycle.Laws.{
  run_log, states, chain, advance_to-Arrives, Arrives, run-terminal,
}
use prime_system.PluginHost.Capabilities.{
  is_well_formed_capability, authorize_capabilities, check_capability, refused,
  capability_not_granted, capability_malformed,
}
use prime_system.PluginHost.Capabilities.Laws.{check-authorize}

-- A plugin that is brought to serving, after one step that is refused.
abbrev calls : List Operation
calls = advance_op discovered ∷ advance_to_op serving ∷ []

run_log_example : states (run calls new).log ≡ chain (run calls new).current
unfolding run apply advance advance_to new LifecycleState-discrete
run_log_example = run_log calls refl

abbrev gone : PluginLifecycle
gone = record { current = failed; log = [] }

run-terminal_example :
    (is_terminal (run calls gone).current ≡ true) × (is_serving (run calls gone) ≡ false)
run-terminal_example = run-terminal calls gone refl

advance_to-Arrives_example : Arrives discovered serving (advance_to serving new)
unfolding new
advance_to-Arrives_example = advance_to-Arrives serving new

abbrev declared : List String
declared = "read:models" ∷ "write:runs" ∷ "Bad" ∷ []

abbrev grants : List String
grants = "read:models" ∷ "exec:tools" ∷ []

check-authorize_example :
    check_capability (authorize_capabilities declared grants).grants "write:runs" ≡ (
      if is_well_formed_capability "write:runs"
      then refused "write:runs" capability_not_granted
      else refused "write:runs" capability_malformed)
check-authorize_example = check-authorize declared grants "write:runs"

-- A host with one plugin root, in which the paths are real and every sandbox starts.
abbrev echo_manifest : Manifest
echo_manifest = record {
  name = "echo";
  version = "1.0.0";
  provides = "tool:echo" ∷ [];
  capabilities = "read:models" ∷ [];
  dependencies = [];
  signature = none;
  mode = "process";
}

abbrev plain_platform : Platform
plain_platform = record {
  separator = codes "/";
  relative = λ outer inner. inner;
  real_path = some;
  join = λ root name. root ++ (47 ∷ name);
  entries = λ root. some ((codes "echo", true) ∷ []);
  load_manifest = λ dir. loaded dir echo_manifest;
  read_tree = λ root. some (entry (codes "index.js") (file (codes "1")) no_entries);
  hash = λ algorithm text. some text;
  has_mode = λ mode. true;
  start_error = λ e. none;
  reply = λ e method. answered [];
}

abbrev provenance : ProvenancePolicy
provenance = record { plugin_roots = codes "plugins" ∷ []; data_roots = [] }

abbrev open_policy : HostPolicy
open_policy = record {
  provenance = provenance;
  accepted_provides = "tool" ∷ [];
  capability_grants = ("echo", "read:models" ∷ []) ∷ [];
  signature = some (record { require_signature = false; algorithms = [] });
}

abbrev requests : List Request
requests =
    discover_request
    ∷ activate_request "echo"
    ∷ call_request "echo" "run"
    ∷ shutdown_request "echo"
    ∷ activate_request "echo"
    ∷ []

handle_all-AreSound_example :
    AreSound open_policy
      (handle_all plain_platform open_policy requests empty_host).records
      (handle_all plain_platform open_policy requests empty_host).trace
handle_all-AreSound_example = handle_all-AreSound plain_platform open_policy requests

abbrev echo : PluginRecord
echo = new_record (codes "plugins/echo") echo_manifest []

abbrev one_plugin : PluginRecord → Host
one_plugin r = record {
  registry = [];
  records = ("echo", r) ∷ [];
  rejections = [];
  created = 0;
  trace = [];
}

activate-gates_example :
    IsCleared plain_platform open_policy echo (one_plugin echo)
    ⊎ Quiet (one_plugin echo) (activate plain_platform open_policy "echo" (one_plugin echo)).0
unfolding get
activate-gates_example =
    activate-gates plain_platform open_policy "echo" echo (one_plugin echo) refl

abbrev dead_echo : PluginRecord
dead_echo = record echo { lifecycle = gone }

activate-terminal_example :
    ((activate plain_platform open_policy "echo" (one_plugin dead_echo)).1 ≡ activated)
    × (state_of "echo" (activate plain_platform open_policy "echo" (one_plugin dead_echo)).0
        ≡ some failed)
    × (was_started 0 (activate plain_platform open_policy "echo" (one_plugin dead_echo)).0.trace
        ≡ true)
unfolding get inherits verify_plugin_signature provides_accepted before_colon same_text sort
    insert_sorted authorize_capabilities is_well_formed_capability is_alnum is_segment_char
activate-terminal_example =
    activate-terminal plain_platform open_policy dead_echo (one_plugin dead_echo) refl refl
      (record { signed = refl; resolved = refl; accepted = refl; given = refl; well_formed = refl })
      refl refl

call-shutdown_plugin_example :
    (state_of "echo" (shutdown_plugin "echo" (one_plugin echo)) ≡ some stopped)
    × (call plain_platform "echo" "run" (shutdown_plugin "echo" (one_plugin echo))
        ≡ (shutdown_plugin "echo" (one_plugin echo), call_refused "PLUGIN_NOT_SERVING"))
unfolding get
call-shutdown_plugin_example =
    call-shutdown_plugin plain_platform "echo" "run" echo (one_plugin echo) refl refl

abbrev seen : DigestRegistry
seen = (codes "echo@1", codes "sha256:0") ∷ []

abbrev after_conflict : DigestRegistry × TrustResult
after_conflict = record_digest (codes "echo") (codes "1") (codes "sha256:1") seen

record_digest-keeps_example :
    ((digest_of (codes "echo") (codes "1") seen ≡ none)
        ⊎ (digest_of (codes "echo") (codes "1") seen ≡ some (codes "sha256:1"))
      → (after_conflict.1 ≡ trusted)
        × (digest_of (codes "echo") (codes "1") after_conflict.0 ≡ some (codes "sha256:1")))
    × ((known : Text)
        → digest_of (codes "echo") (codes "1") seen ≡ some known
        → known ≢ codes "sha256:1"
        → after_conflict ≡ (seen, TrustResult.refused registry_digest_conflict))
    × (((codes "echo" ≡ codes "echo") × (codes "1" ≡ codes "2") → ⊥)
        → digest_of (codes "echo") (codes "2") after_conflict.0
          ≡ digest_of (codes "echo") (codes "2") seen)
record_digest-keeps_example =
    record_digest-keeps (codes "echo") (codes "1") (codes "sha256:1") seen (codes "echo")
      (codes "2") refl refl

abbrev scope : Scope
scope = record {
  tenant = codes "a/b";
  workspace = codes "w";
  corpus = codes "c";
  release = codes "r";
  unit_id = codes "u";
  version = codes "1";
  digest = codes "d";
}

abbrev key : Text
key = codes "a%2Fb/w/c/r/u/1/d"

scope_key_fields_example :
    (blank_fields scope_fields (fields_of scope) ≡ [])
    × (split_slash [] key ≡ map encode (fields_of scope))
unfolding scope_key fields_of blank_fields is_blank is_space join_slash encode encode_char
    is_unreserved percents percent utf8 hex
scope_key_fields_example = scope_key_fields scope key refl

abbrev marker : String
marker = "[redacted]"

abbrev event_input : HostEventInput marker
event_input = record {
  kind = plugin_call;
  plugin = "echo";
  scope = scope;
  payload = ("method", "run") ∷ ("token", "t0") ∷ [];
  secrets = ("token", "t0") ∷ [];
  at = 0;
}

-- The values are texts, which are no prototypes.
abbrev no_prototypes : String → Option (List String)
no_prototypes value = none

host_event-IsWithheld_example :
    IsWithheld marker no_prototypes event_input (made marker no_prototypes event_input key)
unfolding host_event scope_key fields_of blank_fields is_blank is_space join_slash encode
    encode_char is_unreserved percents percent utf8 hex
host_event-IsWithheld_example =
    host_event-IsWithheld marker no_prototypes event_input
      (made marker no_prototypes event_input key) refl refl
