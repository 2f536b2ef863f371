-- ===== src/PluginHost/Events.antt =====
-- packages/plugin-host/src/events.ts. A text of a scope is given by its code points; the values of
-- a payload are of any type that has the marker of what is withheld.
pub mod ScopeKeys
pub mod Laws
use prime_system.Base.{
  ℕ, ◌+◌, ◌-◌, ◌/◌, ◌%◌, Text, String, string_eq, Bool, true, false, not, ◌&&◌, ◌||◌, ◌==◌, List,
  [], ◌∷◌, ◌++◌, Option, none, some, if◌then◌else◌, ltb, leb, eqb, map, every, filter, any,
  includes, str_lt,
}
use prime_system.Base.Maps.{get, set}
use prime_system.Base.Objects.{inherited_names}
use prime_system.Base.Sorting.{sort}

pub record Scope : Type 0 where
  pub tenant : Text
  pub workspace : Text
  pub corpus : Text
  pub release : Text
  pub unit_id : Text
  pub version : Text
  pub digest : Text

-- The values of SCOPE_FIELDS.
unfoldable pub fields_of : Scope → List Text
fields_of s = s.tenant ∷ s.workspace ∷ s.corpus ∷ s.release ∷ s.unit_id ∷ s.version ∷ s.digest ∷ []

abbrev pub scope_fields : List String
scope_fields = "tenant" ∷ "workspace" ∷ "corpus" ∷ "release" ∷ "unitId" ∷ "version" ∷ "digest" ∷ []

-- What `trim` removes.
unfoldable pub is_space : ℕ → Bool
is_space c =
    (leb 9 c && leb c 13)
    || eqb c 32
    || eqb c 160
    || eqb c 5760
    || (leb 8192 c && leb c 8202)
    || eqb c 8232
    || eqb c 8233
    || eqb c 8239
    || eqb c 8287
    || eqb c 12288
    || eqb c 65279

-- `text.trim() === ""`
unfoldable pub is_blank : Text → Bool
is_blank t = every is_space t

unfoldable pub blank_fields : List String → List Text → List String
blank_fields (name ∷ names) (t ∷ ts) =
    let rest = blank_fields names ts in if is_blank t then name ∷ rest else rest
blank_fields _ _ = []

-- `encodeURIComponent`: the characters that stay, and the others as the bytes of their UTF-8.
unfoldable pub is_unreserved : ℕ → Bool
is_unreserved c =
    (leb b'a' c && leb c b'z')
    || (leb b'A' c && leb c b'Z')
    || (leb b'0' c && leb c b'9')
    || any (eqb c) (45 ∷ 95 ∷ 46 ∷ 33 ∷ 126 ∷ 42 ∷ 39 ∷ 40 ∷ 41 ∷ [])

unfoldable pub hex : ℕ → ℕ
hex d = if ltb d 10 then 48 + d else 55 + d

unfoldable pub percent : ℕ → Text
percent byte = 37 ∷ hex (byte / 16) ∷ hex (byte % 16) ∷ []

unfoldable pub utf8 : ℕ → List ℕ
utf8 c =
    if ltb c 128
    then c ∷ []
    else if ltb c 2048
    then (192 + c / 64) ∷ (128 + c % 64) ∷ []
    else if ltb c 65536
    then (224 + c / 4096) ∷ (128 + c / 64 % 64) ∷ (128 + c % 64) ∷ []
    else (240 + c / 262144) ∷ (128 + c / 4096 % 64) ∷ (128 + c / 64 % 64) ∷ (128 + c % 64) ∷ []

unfoldable pub percents : List ℕ → Text
percents [] = []
percents (b ∷ bs) = percent b ++ percents bs

unfoldable pub encode_char : ℕ → Text
encode_char c = if is_unreserved c then c ∷ [] else percents (utf8 c)

unfoldable pub encode : Text → Text
encode [] = []
encode (c ∷ cs) = encode_char c ++ encode cs

-- `join("/")`
unfoldable pub join_slash : List Text → Text
join_slash [] = []
join_slash (t ∷ []) = t
join_slash (t ∷ u ∷ ts) = t ++ (b'/' ∷ join_slash (u ∷ ts))

pub data ScopeKey : Type 0 where
  key_of : Text → ScopeKey
  incomplete : List String → ScopeKey

abbrev pub key_for : List String → Scope → ScopeKey
key_for [] scope = key_of (join_slash (map encode (fields_of scope)))
key_for (name ∷ names) scope = incomplete (name ∷ names)

-- `scopeKey`
unfoldable pub scope_key : Scope → ScopeKey
scope_key scope = key_for (blank_fields scope_fields (fields_of scope)) scope

pub data HostEventKind : Type 0 where
  plugin_discovered plugin_rejected plugin_authorized plugin_state : HostEventKind
  plugin_call effect_granted effect_refused plugin_failed : HostEventKind

module _ {V : Type 0} (redacted : V) where
  pub record HostEventInput : Type 0 where
    pub kind : HostEventKind
    pub plugin : String
    pub scope : Scope
    pub payload : List (String × V)
    pub secrets : List (String × V)
    pub at : ℕ

  pub record HostEvent : Type 0 where
    pub kind : HostEventKind
    pub plugin : String
    pub scope_key : Text
    pub at : ℕ
    pub payload : List (String × V)
    pub withheld : List String

  abbrev pub keys_of : List (String × V) → List String
  keys_of [] = []
  keys_of ((k, v) ∷ m) = k ∷ keys_of m

  -- The object that is being filled: its own fields, and the names that its prototype has, which
  -- are those of `Object.prototype` until the prototype is set.
  pub record Filling : Type 0 where
    pub own : List (String × V)
    pub from_prototype : List String

  abbrev pub no_fields : Filling
  no_fields = record { own = []; from_prototype = inherited_names }

  abbrev pub is_own : String → List (String × V) → Bool
  is_own k m = elim (get k m) [ none ↦ false | some v ↦ true ]

  -- `key in payload`
  abbrev pub has_key : String → Filling → Bool
  has_key k filling = is_own k filling.own || includes filling.from_prototype k

  -- The prototype that a value becomes when it is assigned to "__proto__", by all the names it has;
  -- a value that can be none is ignored.
  module _ (prototype_names : V → Option (List String)) where
    -- `payload[key] = value`. Where the prototype has "__proto__", as that of a plain object does,
    -- the assignment sets the prototype.
    unfoldable pub assign : String → V → Filling → Filling
    assign k v filling =
        if k == "__proto__" && includes filling.from_prototype k && not (is_own k filling.own)
        then elim (prototype_names v) [
          | none ↦ filling
          | some names ↦ record filling { from_prototype = names }
        ]
        else record filling { own = set k v filling.own }

    -- The loop over the payload.
    unfoldable pub copy_payload : List String → List (String × V) → Filling → Filling
    copy_payload withheld [] done = done
    copy_payload withheld ((k, v) ∷ m) done =
        copy_payload withheld m (assign k (if includes withheld k then redacted else v) done)

    -- The loop over the secret keys.
    unfoldable pub mark_withheld : List String → Filling → Filling
    mark_withheld [] done = done
    mark_withheld (k ∷ ks) done =
        mark_withheld ks (if has_key k done then done else assign k redacted done)

    unfoldable pub payload_of : List String → List (String × V) → List (String × V)
    payload_of withheld payload =
        (mark_withheld withheld (copy_payload withheld payload no_fields)).own

  unfoldable pub withheld_of : List (String × V) → List String
  withheld_of secrets = sort str_lt (keys_of secrets)

  abbrev pub made : (V → Option (List String)) → HostEventInput → Text → HostEvent
  made prototype_names input key = record {
    kind = input.kind;
    plugin = input.plugin;
    scope_key = key;
    at = input.at;
    payload = payload_of prototype_names (withheld_of input.secrets) input.payload;
    withheld = withheld_of input.secrets;
  }

  abbrev pub event_for : (V → Option (List String)) → HostEventInput → ScopeKey → Option HostEvent
  event_for prototype_names input (incomplete names) = none
  event_for prototype_names input (key_of key) = some (made prototype_names input key)

  -- `hostEvent`; an incomplete scope throws.
  unfoldable pub host_event : (V → Option (List String)) → HostEventInput → Option HostEvent
  host_event prototype_names input = event_for prototype_names input (scope_key input.scope)
