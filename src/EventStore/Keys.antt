-- ===== src/EventStore/Keys.antt =====
-- packages/event-store/src/scope.ts and the keys of base.ts and memory.ts. A key is the text that
-- JSON.stringify gives for an array of texts, here with its escapes.
pub mod Injective
use prime_system.Base.{
  ℕ, zero, suc, ◌+◌, ◌-◌, ◌/◌, ◌%◌, Text, Bool, true, false, ◌&&◌, ◌||◌, Option, none, some, List,
  [], ◌∷◌, ◌++◌, if◌then◌else◌, ltb, eqb, same_text,
}

-- RunScope
pub record RunScope : Type 0 where
  pub tenant : Text
  pub workspace : Text
  pub snapshot : Text

-- RunScopeSource
pub record RunScopeSource : Type 0 where
  pub snapshot : Text
  pub tenant : Option Text
  pub workspace : Option Text

-- `o ?? ""`
abbrev pub or_empty : Option Text → Text
or_empty none = []
or_empty (some t) = t

unfoldable pub to_scope : RunScopeSource → RunScope
to_scope source = record {
  tenant = or_empty source.tenant;
  workspace = or_empty source.workspace;
  snapshot = source.snapshot;
}

-- A digit of `\u00XX`, in lower case.
unfoldable pub hex_digit : ℕ → ℕ
hex_digit d = if ltb d 10 then b'0' + d else b'a' + (d - 10)

-- What JSON.stringify writes for one character.
unfoldable pub escape : ℕ → Text
unfolding hex_digit
escape c =
    if eqb c b'"'
    then 92 ∷ b'"' ∷ []
    else if eqb c 92
    then 92 ∷ 92 ∷ []
    else if eqb c 8
    then 92 ∷ b'b' ∷ []
    else if eqb c 9
    then 92 ∷ b't' ∷ []
    else if eqb c 10
    then 92 ∷ b'n' ∷ []
    else if eqb c 12
    then 92 ∷ b'f' ∷ []
    else if eqb c 13
    then 92 ∷ b'r' ∷ []
    else if ltb c 32
    then 92 ∷ b'u' ∷ b'0' ∷ b'0' ∷ hex_digit (c / 16) ∷ hex_digit (c % 16) ∷ []
    else c ∷ []

-- The characters of a text and its closing quote.
unfoldable pub quote_rest : Text → Text
quote_rest [] = b'"' ∷ []
quote_rest (c ∷ cs) = escape c ++ quote_rest cs

unfoldable pub quote : Text → Text
unfolding quote_rest
quote t = b'"' ∷ quote_rest t

-- The elements after the first, and the closing bracket.
unfoldable pub stringify_rest : List Text → Text
stringify_rest [] = b']' ∷ []
stringify_rest (t ∷ ts) = b',' ∷ (quote t ++ stringify_rest ts)

-- `JSON.stringify(texts)`
unfoldable pub stringify : List Text → Text
unfolding stringify_rest
stringify [] = b'[' ∷ b']' ∷ []
stringify (t ∷ ts) = b'[' ∷ (quote t ++ stringify_rest ts)

unfoldable pub scope_key : RunScope → Text
scope_key scope = stringify (scope.tenant ∷ scope.workspace ∷ scope.snapshot ∷ [])

unfoldable pub idempotency_key_of : RunScope → Text → Text → Text
idempotency_key_of scope action idempotency_key =
    stringify (scope.tenant ∷ scope.workspace ∷ scope.snapshot ∷ action ∷ idempotency_key ∷ [])

unfoldable pub same_scope : RunScope → RunScope → Bool
same_scope left right =
    same_text left.tenant right.tenant
    && same_text left.workspace right.workspace
    && same_text left.snapshot right.snapshot

-- `${key}\u0000${runId}`: rowKey of memory.ts, and cacheKey of base.ts.
unfoldable pub row_key : Text → Text → Text
row_key key run_id = key ++ 0 ∷ run_id

unfoldable pub cache_key : Text → Text → Text
cache_key key run_id = key ++ 0 ∷ run_id
