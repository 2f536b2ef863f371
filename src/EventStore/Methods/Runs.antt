-- ===== src/EventStore/Methods/Runs.antt =====
-- Saving a run and reading it back: the log, the identity cache, and the conflict of scopes.
use prime_system.Base.{
  ℕ, ◌+◌, ◌≡◌, refl, arith, Text, Bool, true, false, List, [], ◌∷◌, some, eqb, text_eq,
  same_text_iff, map, length-map, last?, any, length,
}
use mathlib.Core.List.{map-append}
use prime_system.Base.Maps.{set, get-set_self}
use prime_system.EventStore.Keys.{RunScope, scope_key, cache_key, row_key}
use prime_system.EventStore.Values.{
  JsValue, Json, json_null, json_bool, json_number, json_text, json_array, json_object, JsonItems,
  json_nil, json_cons, JsonFields, json_end, json_field,
}
use prime_system.EventStore.Memory.{StoredRevisionRow, read_events, read_revisions, append_revision}
use prime_system.EventStore.Operations.{
  Result, ok, World, Options, EventRecord, RunRevision, EventStore, decode, prepare, same_json,
  same_items, same_fields,
}
use prime_system.EventStore.Methods.{
  save_in, revisions_in, events_in, replay_in, replay_equivalence, get_in, live_run, ReplayResult,
  append_in,
}
use prime_system.EventStore.Methods.Append.{
  Numbered, snoc, Numbered-snoc, revision_of, run_revisions_lem, IsNumbered,
}
use prime_system.EventStore.Methods.Log.{append-others}

eqb_self : (a : ℕ) → eqb a a ≡ true
eqb_self a = ground arith

mutual
  unfolding same_json

  same_json_refl : (j : Json) → same_json j j ≡ true
  same_json_refl json_null = refl
  same_json_refl (json_bool true) = refl
  same_json_refl (json_bool false) = refl
  same_json_refl (json_number n) = eqb_self n
  same_json_refl (json_text t) = (same_text_iff t t).1 refl
  same_json_refl (json_array js) = same_items_refl js
  same_json_refl (json_object fs) = same_fields_refl fs

  same_items_refl : (js : JsonItems) → same_items js js ≡ true
  same_items_refl json_nil = refl
  same_items_refl (json_cons j js) = rw (same_json_refl j, same_items_refl js)

  same_fields_refl : (fs : JsonFields) → same_fields fs fs ≡ true
  same_fields_refl json_end = refl
  same_fields_refl (json_field k j fs) =
      rw ((same_text_iff k k).1 refl, same_json_refl j, same_fields_refl fs)

last?-snoc : {A : Type 0} (xs : List A) (x : A) → last? (snoc xs x) ≡ some x
last?-snoc [] x = refl
last?-snoc (y ∷ []) x = refl
last?-snoc (y ∷ z ∷ xs) x = last?-snoc (z ∷ xs) x

unfoldable pub revision_row : ℕ → Json → Bool → List StoredRevisionRow → StoredRevisionRow
revision_row at json lossy rows = record {
  revision = length rows + 1;
  at = at;
  run = json;
  lossy = lossy;
}

module _ (o : Options) (w : World) (scope : RunScope) (ref : ℕ) where
  abbrev run_id : Text
  run_id = (w.run_at ref).id

  abbrev prepared_run : Result (JsValue × Json × Bool)
  prepared_run =
      prepare w.objects o.strict (o.redact_run scope run_id w.objects (w.run_at ref).value)

  abbrev saved : Json → Bool → EventStore → EventStore
  saved json lossy s =
      let rows = read_revisions (scope_key scope) run_id s.backend in
      record s {
        backend = record (s.backend) {
          revisions =
              set (row_key (scope_key scope) run_id)
                (snoc rows (revision_row w.now json lossy rows)) s.backend.revisions;
        };
        live = set (cache_key (scope_key scope) run_id) ref s.live;
      }

  save_in_lem :
      (redacted : JsValue) (json : Json) (lossy : Bool) (s : EventStore)
      → prepared_run ≡ ok (redacted, json, lossy)
      → save_in o w scope ref s ≡ (saved json lossy s, ok tt)
  unfolding save_in append_revision read_revisions revision_row
  save_in_lem redacted json lossy s e = ground (arith, e)

  read_saved :
      (json : Json) (lossy : Bool) (s : EventStore)
      → let rows = read_revisions (scope_key scope) run_id s.backend in
        read_revisions (scope_key scope) run_id (saved json lossy s).backend
        ≡ snoc rows (revision_row w.now json lossy rows)
  unfolding read_revisions
  read_saved json lossy s = rw (get-set_self (row_key (scope_key scope) run_id))

  -- After a save that redaction and encoding accept, a lossy one included, the comparison of the live
  -- object with the log finds them equal as long as the caller has not changed the object, and
  -- reports exactly the JSON that was stored and the lossy flag of the save.
  pub replay_equivalence-save :
      (redacted : JsValue) (json : Json) (lossy : Bool) (s : EventStore)
      → prepared_run ≡ ok (redacted, json, lossy)
      → replay_equivalence o w scope run_id (save_in o w scope ref s).0
        ≡ ok (record { equivalent = true; lossy = lossy; live = some json; stored = some json })
  unfolding replay_equivalence revision_row
  replay_equivalence-save redacted json lossy s e =
      let rows = read_revisions (scope_key scope) run_id s.backend in
      ground (
        arith,
        e,
        save_in_lem redacted json lossy s e,
        read_saved json lossy s,
        last?-snoc rows (revision_row w.now json lossy rows),
        get-set_self (cache_key (scope_key scope) run_id) ref s.live,
        same_json_refl json,
      )

  abbrev new_revision : ℕ → Json → Bool → RunRevision
  new_revision n json lossy = record {
    revision = n;
    run_id = run_id;
    scope = scope;
    at = w.now;
    run = decode json;
    lossy = lossy;
  }

  revisions-Numbered_in :
      (s : EventStore)
      → IsNumbered s.backend
      → Numbered StoredRevisionRow.revision 0 (read_revisions (scope_key scope) run_id s.backend)
  unfolding read_revisions
  revisions-Numbered_in s h = h.revisions_numbered (row_key (scope_key scope) run_id)

  revisions-save :
      (json : Json) (lossy : Bool) (s : EventStore) (rs : List RunRevision)
      → IsNumbered s.backend
      → revisions_in o w scope run_id s ≡ ok rs
      → revisions_in o w scope run_id (saved json lossy s)
        ≡ ok (snoc rs (new_revision (length rs + 1) json lossy))
  unfolding revisions_in revision_row revision_of
  revisions-save json lossy s rs h before =
      let rows = read_revisions (scope_key scope) run_id s.backend in
      let row = revision_row w.now json lossy rows in
      let numbered = revisions-Numbered_in s h in
      let same : map (revision_of scope run_id) rows ≡ rs =
        cc (run_revisions_lem 0 scope run_id rows numbered) in
      rw (
        read_saved json lossy s,
        run_revisions_lem 0 scope run_id (snoc rows row)
            (Numbered-snoc StoredRevisionRow.revision 0 rows row numbered (omega arith)),
        map-append,
        ← same,
        length-map (revision_of scope run_id) rows,
      )

  events-save :
      (json : Json) (lossy : Bool) (s : EventStore)
      → events_in o w scope run_id (saved json lossy s) ≡ events_in o w scope run_id s
  unfolding events_in read_events
  events-save json lossy s = refl

  -- After a save to a store whose logs are numbered, of a run that redaction and encoding accept,
  -- `get` gives back the caller's own object, and replay, from the log alone, gives the run that
  -- the stored JSON spells, one revision more than before, and the events that there were.
  pub replay-save :
      (redacted : JsValue) (json : Json) (lossy : Bool) (s : EventStore)
      → IsNumbered s.backend
      → prepared_run ≡ ok (redacted, json, lossy)
      → (rs : List RunRevision) (es : List EventRecord) → revisions_in o w scope run_id s ≡ ok rs
      → events_in o w scope run_id s ≡ ok es
      → let s' = (save_in o w scope ref s).0 in
        (get_in o w scope run_id s' ≡ ok (some (live_run ref)))
        × (replay_in o w scope run_id s'
            ≡ ok (record {
              run_id = run_id;
              scope = scope;
              run = some (decode json);
              events = es;
              revisions = snoc rs (new_revision (length rs + 1) json lossy);
              lossy = any RunRevision.lossy (snoc rs (new_revision (length rs + 1) json lossy));
            }))
  unfolding get_in replay_in
  replay-save redacted json lossy s h e rs es revisions_before events_before =
      let new = new_revision (length rs + 1) json lossy in
      rw (save_in_lem redacted json lossy s e) (
        rw (get-set_self (cache_key (scope_key scope) run_id) ref s.live, get_in),
        ground (
          arith,
          revisions-save json lossy s rs h revisions_before,
          events-save json lossy s,
          last?-snoc rs new,
        ),
      )

-- The flag of a replay tells of the revisions alone: an event that is stored with a replaced leaf
-- leaves it down where no revision is lossy.
pub replay-lossy_event :
    (o : Options) (w : World) (scope : RunScope) (run_id type : Text) (payload : JsValue)
    (s : EventStore) (rs : List RunRevision) (r : ReplayResult)
    → revisions_in o w scope run_id s ≡ ok rs
    → any RunRevision.lossy rs ≡ false
    → replay_in o w scope run_id (append_in o w scope run_id type payload s).0 ≡ ok r
    → r.lossy ≡ false
unfolding replay_in
replay-lossy_event o w scope run_id type payload s rs r before clean after =
    ground (arith, (append-others o w scope run_id type payload s scope run_id).1)
