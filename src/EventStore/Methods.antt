-- ===== src/EventStore/Methods.antt =====
-- The methods of BaseEventStore, packages/event-store/src/base.ts.
pub mod Append
pub mod Log
pub mod Calls
pub mod Reach
pub mod Runs
pub mod Idempotency
use prime_system.Base.{
  ℕ, zero, suc, ◌+◌, Text, Bool, true, false, not, ◌&&◌, ◌||◌, List, [], ◌∷◌, ◌++◌, Option, none,
  some, if◌then◌else◌, eqb, length, any, last?, text_eq, same_text,
}
use prime_system.Base.Maps.{get, set}
use prime_system.EventStore.Keys.{
  RunScope, RunScopeSource, to_scope, scope_key, idempotency_key_of, same_scope, cache_key,
}
use prime_system.EventStore.Values.{JsValue, Json, Outcome, done, thrown, exhausted}
use prime_system.EventStore.Serialize.{encode}
use prime_system.EventStore.Memory.{
  StoredEventRow, StoredRevisionRow, IdempotencyRecord, MemoryBackend, empty, read_events,
  read_revisions, append_event, append_revision, put_idempotency, get_idempotency,
}
use prime_system.EventStore.Operations.{
  StoreError, run_scope_conflict, idempotency_key_required, idempotency_conflict,
  append_only_violation, Result, ok, err, RunObject, World, Options, EventRecord, RunRevision,
  EventStore, decode, same_json, prepare, event_records, run_revisions,
}

-- What `get` gives: the caller's own object, or a run read back from the log.
pub data Found : Type 0 where
  live_run : ℕ → Found
  stored_run : JsValue → Found

pub record ReplayResult : Type 0 where
  pub run_id : Text
  pub scope : RunScope
  pub run : Option JsValue
  pub events : List EventRecord
  pub revisions : List RunRevision
  pub lossy : Bool

pub record ReplayEquivalence : Type 0 where
  pub equivalent : Bool
  pub lossy : Bool
  pub live : Option Json
  pub stored : Option Json

pub data IdempotencyOutcome : Type 0 where
  claimed replayed : IdempotencyRecord → IdempotencyOutcome

pub record IdempotencyClaim : Type 0 where
  pub scope : RunScope
  pub action : Text
  pub idempotency_key : Text
  pub fingerprint : Text
  pub run_id : Text

abbrev pub scope_or : RunScope → Option RunScope → RunScope
scope_or d none = d
scope_or d (some s) = s

module _ (o : Options) (w : World) where
  unfoldable pub scope_for : Text → EventStore → RunScope
  scope_for run_id s = scope_or o.default_scope (get run_id s.run_scopes)

  unfoldable pub append_in :
      RunScope → Text → Text → JsValue → EventStore → EventStore × Result EventRecord
  append_in scope run_id type payload s =
      elim (prepare w.objects o.strict (o.redact_event scope run_id type w.objects payload)) [
        | err e ↦ (s, err e)
        | ok (redacted, json, lossy) ↦
            let (backend, appended) =
              append_event (scope_key scope) run_id type w.now json lossy s.backend in
            elim appended [
              | none ↦ (record s { backend = backend }, err append_only_violation)
              | some sequence ↦ (
                record s { backend = backend },
                ok (record {
                  sequence = sequence;
                  run_id = run_id;
                  type = type;
                  at = w.now;
                  payload = redacted;
                }),
              )
            ]
      ]

  unfoldable pub events_in : RunScope → Text → EventStore → Result (List EventRecord)
  events_in scope run_id s = event_records 0 run_id (read_events (scope_key scope) run_id s.backend)

  unfoldable pub save_in : RunScope → ℕ → EventStore → EventStore × Result (Unit {0})
  save_in scope ref s =
      let run = w.run_at ref in
      let key = scope_key scope in
      elim (prepare w.objects o.strict (o.redact_run scope run.id w.objects run.value)) [
        | err e ↦ (s, err e)
        | ok (redacted, json, lossy) ↦
            let (backend, revision) = append_revision key run.id w.now json lossy s.backend in
            (record s { backend = backend; live = set (cache_key key run.id) ref s.live }, ok tt)
      ]

  unfoldable pub revisions_in : RunScope → Text → EventStore → Result (List RunRevision)
  revisions_in scope run_id s =
      run_revisions 0 scope run_id (read_revisions (scope_key scope) run_id s.backend)

  abbrev last_run : Option RunRevision → Option JsValue
  last_run none = none
  last_run (some r) = some r.run

  abbrev found : Option JsValue → Option Found
  found none = none
  found (some v) = some (stored_run v)

  unfoldable pub get_in : RunScope → Text → EventStore → Result (Option Found)
  unfolding revisions_in
  get_in scope run_id s = elim (get (cache_key (scope_key scope) run_id) s.live) [
    | some ref ↦ ok (some (live_run ref))
    | none ↦ elim (revisions_in scope run_id s) [
      | err e ↦ err e
      | ok revisions ↦ ok (found (last_run (last? revisions)))
    ]
  ]

  unfoldable pub replay_in : RunScope → Text → EventStore → Result ReplayResult
  replay_in scope run_id s = elim (revisions_in scope run_id s) [
    | err e ↦ err e
    | ok revisions ↦ elim (events_in scope run_id s) [
      | err e ↦ err e
      | ok events ↦ ok (record {
        run_id = run_id;
        scope = scope;
        run = last_run (last? revisions);
        events = events;
        revisions = revisions;
        lossy = any RunRevision.lossy revisions;
      })
    ]
  ]

  -- `append`, `events`, `get` and `replay` of the unscoped view take the scope that `save` learned;
  -- a scoped view calls the methods above with its own scope.
  unfoldable pub append : Text → Text → JsValue → EventStore → EventStore × Result EventRecord
  unfolding append_in scope_for
  append run_id type payload s = append_in (scope_for run_id s) run_id type payload s

  unfoldable pub events : Text → EventStore → Result (List EventRecord)
  unfolding events_in scope_for
  events run_id s = events_in (scope_for run_id s) run_id s

  unfoldable pub save : ℕ → EventStore → EventStore × Result (Unit {0})
  save ref s =
      let run = w.run_at ref in
      let scope = to_scope run.context in
      let store = save_in scope ref (record s { run_scopes = set run.id scope s.run_scopes }) in
      elim (get run.id s.run_scopes) [
        | none ↦ store
        | some known ↦ if same_scope known scope then store else (s, err run_scope_conflict)
      ]

  unfoldable pub get_run : Text → EventStore → Result (Option Found)
  unfolding get_in scope_for
  get_run run_id s = get_in (scope_for run_id s) run_id s

  -- The scope of a source, or the one that the run is known under.
  abbrev pub source_scope : Text → EventStore → Option RunScopeSource → RunScope
  source_scope run_id s none = scope_for run_id s
  source_scope run_id s (some source) = to_scope source

  unfoldable pub replay : Text → Option RunScopeSource → EventStore → Result ReplayResult
  replay run_id source s = replay_in (source_scope run_id s source) run_id s

  unfoldable pub revisions : Text → Option RunScopeSource → EventStore → Result (List RunRevision)
  revisions run_id source s = revisions_in (source_scope run_id s source) run_id s

  unfoldable pub replay_equivalence : RunScope → Text → EventStore → Result ReplayEquivalence
  replay_equivalence scope run_id s =
      let key = scope_key scope in
      elim (last? (read_revisions key run_id s.backend)) [
        | none ↦ elim (get (cache_key key run_id) s.live) [
          | none ↦ ok (record { equivalent = true; lossy = false; live = none; stored = none })
          | some _ ↦ ok (record { equivalent = false; lossy = false; live = none; stored = none })
        ]
        | some stored ↦ elim (get (cache_key key run_id) s.live) [
          | none ↦ ok (record { equivalent = false; lossy = false; live = none; stored = none })
          | some ref ↦
              elim (prepare w.objects o.strict
                (o.redact_run scope run_id w.objects (w.run_at ref).value)) [
                  | err e ↦ err e
                  | ok (redacted, json, lossy) ↦ ok (record {
                    equivalent = same_json json stored.run;
                    lossy = stored.lossy || lossy;
                    live = some json;
                    stored = some stored.run;
                  })
                ]
        ]
      ]

  unfoldable pub claim_idempotency :
      IdempotencyClaim → EventStore → EventStore × Result IdempotencyOutcome
  claim_idempotency claim s =
      let fresh : IdempotencyRecord = record {
        scope = claim.scope;
        action = claim.action;
        idempotency_key = claim.idempotency_key;
        fingerprint = claim.fingerprint;
        run_id = claim.run_id;
        at = w.now;
      } in
      let (backend, kept, inserted) =
        put_idempotency (idempotency_key_of claim.scope claim.action claim.idempotency_key) fresh
          s.backend in
      let next : EventStore = record s { backend = backend } in
      if same_text claim.idempotency_key []
      then (s, err idempotency_key_required)
      else if not (same_text kept.fingerprint claim.fingerprint)
      then (next, err idempotency_conflict)
      else (next, ok (if inserted then claimed kept else replayed kept))

  unfoldable pub lookup_idempotency : RunScope → Text → Text → EventStore → Option IdempotencyRecord
  lookup_idempotency scope action idempotency_key s =
      get_idempotency (idempotency_key_of scope action idempotency_key) s.backend
