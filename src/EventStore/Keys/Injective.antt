-- ===== src/EventStore/Keys/Injective.antt =====
-- The keys of packages/event-store/src/scope.ts and memory.ts, read back.
use prime_system.Base.{
  ℕ, ◌+◌, ◌-◌, ◌*◌, ◌<◌, ◌≡◌, refl, sym, ap, ◌∙◌, ◌↔◌, Text, true, Option, none, some, List, [],
  ◌∷◌, ◌++◌, if◌then◌else◌, ltb, eqb, same_text_iff, arith, All,
}
use mathlib.Core.List.{append_assoc}
use prime_system.EventStore.Keys.{
  RunScope, escape, quote_rest, quote, stringify_rest, stringify, scope_key, idempotency_key_of,
  same_scope, row_key,
}

-- Reading back what `escape` writes.
unhex : ℕ → ℕ
unhex d = if ltb d b'a' then d - b'0' else d - b'a' + 10

short : ℕ → ℕ
short e =
    if eqb e b'b'
    then 8
    else if eqb e b't'
    then 9
    else if eqb e b'n'
    then 10
    else if eqb e b'f'
    then 12
    else if eqb e b'r'
    then 13
    else e

read_escape : ℕ → Text → Option (ℕ × Text)
unfolding unhex short
read_escape e (x ∷ y ∷ h ∷ l ∷ rest) =
    if eqb e b'u' then some (unhex h * 16 + unhex l, rest) else some (short e, x ∷ y ∷ h ∷ l ∷ rest)
read_escape e rest = some (short e, rest)

-- `none` at the closing quote.
read_char : Text → Option (ℕ × Text)
unfolding read_escape
read_char [] = none
read_char (c ∷ []) = if eqb c b'"' then none else some (c, [])
read_char (c ∷ e ∷ rest) =
    if eqb c b'"' then none else if eqb c 92 then read_escape e rest else some (c, e ∷ rest)

read_char-escape : (c : ℕ) (rest : Text) → read_char (escape c ++ rest) ≡ some (c, rest)
unfolding escape read_char
read_char-escape c [] = ground arith
read_char-escape c (a ∷ []) = ground arith
read_char-escape c (a ∷ b ∷ []) = ground arith
read_char-escape c (a ∷ b ∷ d ∷ rest) = ground arith

read_char-quote : (rest : Text) → read_char (b'"' ∷ rest) ≡ none
unfolding read_char
read_char-quote [] = refl
read_char-quote (c ∷ rest) = refl

read_char-append : (c : ℕ) (cs r : Text) → read_char ((escape c ++ cs) ++ r) ≡ some (c, cs ++ r)
read_char-append c cs r = rw append_assoc (read_char-escape c (cs ++ r))

none-ne-some : (p : ℕ × Text) → none ≡ some p → ⊥
none-ne-some p h = ground arith

some-cancel :
    (c d : ℕ) (r q : Text)
    → ◌≡◌ {A = Option (ℕ × Text)} (some (c, r)) (some (d, q))
    → (c ≡ d) × (r ≡ q)
some-cancel c d r q h = ground arith

quote_rest-injective : (s t r q : Text) → quote_rest s ++ r ≡ quote_rest t ++ q → (s ≡ t) × (r ≡ q)
unfolding quote_rest
quote_rest-injective [] [] r q h = ground arith
quote_rest-injective [] (d ∷ ds) r q h = absurd (
    none-ne-some (d, quote_rest ds ++ q)
      (sym (read_char-quote r) ∙ ap read_char h ∙ read_char-append d (quote_rest ds) q))
quote_rest-injective (c ∷ cs) [] r q h = absurd (
    none-ne-some (c, quote_rest cs ++ r)
      (sym (read_char-quote q) ∙ ap read_char (sym h) ∙ read_char-append c (quote_rest cs) r))
quote_rest-injective (c ∷ cs) (d ∷ ds) r q h =
    let (same, tail) = some-cancel c d (quote_rest cs ++ r) (quote_rest ds ++ q) (
      sym (read_char-append c (quote_rest cs) r)
      ∙ ap read_char h
      ∙ read_char-append d (quote_rest ds) q) in
    let (rest, end) = quote_rest-injective cs ds r q tail in (ground arith, end)

quote-injective : (s t r q : Text) → quote s ++ r ≡ quote t ++ q → (s ≡ t) × (r ≡ q)
unfolding quote
quote-injective s t r q h = quote_rest-injective s t r q (ground arith)

stringify_rest-injective : (ss ts : List Text) → stringify_rest ss ≡ stringify_rest ts → ss ≡ ts
unfolding stringify_rest
stringify_rest-injective [] [] h = refl
stringify_rest-injective [] (t ∷ ts) h = absurd (ground arith)
stringify_rest-injective (s ∷ ss) [] h = absurd (ground arith)
stringify_rest-injective (s ∷ ss) (t ∷ ts) h =
    let (same, rest) = quote-injective s t (stringify_rest ss) (stringify_rest ts) (ground arith) in
    let tail = stringify_rest-injective ss ts rest in cc

-- The text of an array of texts determines the array: no text inside can imitate a separator.
pub stringify-injective : (ss ts : List Text) → stringify ss ≡ stringify ts → ss ≡ ts
unfolding stringify quote
stringify-injective [] [] h = refl
stringify-injective [] (t ∷ ts) h = absurd (ground arith)
stringify-injective (s ∷ ss) [] h = absurd (ground arith)
stringify-injective (s ∷ ss) (t ∷ ts) h =
    let (same, rest) =
      quote_rest-injective s t (stringify_rest ss) (stringify_rest ts) (ground arith) in
    let tail = stringify_rest-injective ss ts rest in cc

-- No character of the text of an array is NUL.
abbrev pub NoNul : Text → Type 0
NoNul t = All (λ c. 0 < c) t

NoNul-append : (s t : Text) → NoNul s → NoNul t → NoNul (s ++ t)
NoNul-append [] t h k = k
NoNul-append (c ∷ s) t (p, h) k = (p, NoNul-append s t h k)

NoNul-escape : (c : ℕ) → NoNul (escape c)
unfolding escape
NoNul-escape c = ground arith

NoNul-quote_rest : (t : Text) → NoNul (quote_rest t)
unfolding quote_rest
NoNul-quote_rest [] = omega arith
NoNul-quote_rest (c ∷ cs) = NoNul-append (escape c) _ (NoNul-escape c) (NoNul-quote_rest cs)

NoNul-stringify_rest : (ts : List Text) → NoNul (stringify_rest ts)
unfolding stringify_rest quote
NoNul-stringify_rest [] = omega arith
NoNul-stringify_rest (t ∷ ts) = (
  omega arith,
  (omega arith, NoNul-append (quote_rest t) _ (NoNul-quote_rest t) (NoNul-stringify_rest ts)),
)

NoNul-stringify : (ts : List Text) → NoNul (stringify ts)
unfolding stringify quote
NoNul-stringify [] = omega arith
NoNul-stringify (t ∷ ts) = (
  omega arith,
  (omega arith, NoNul-append (quote_rest t) _ (NoNul-quote_rest t) (NoNul-stringify_rest ts)),
)

row_key-split : (k j r q : Text) → NoNul k → NoNul j → row_key k r ≡ row_key j q → (k ≡ j) × (r ≡ q)
unfolding row_key
row_key-split [] [] r q h g e = ground arith
row_key-split [] (d ∷ j) r q h g e = absurd (ground arith)
row_key-split (c ∷ k) [] r q h g e = absurd (ground arith)
row_key-split (c ∷ k) (d ∷ j) r q h g e =
    let (same, rest) = row_key-split k j r q h.1 g.1 (ground arith) in (ground arith, rest)

pub scope_key-injective : (s t : RunScope) → scope_key s ≡ scope_key t → s ≡ t
unfolding scope_key
scope_key-injective s t h =
    let e =
      stringify-injective (s.tenant ∷ s.workspace ∷ s.snapshot ∷ [])
        (t.tenant ∷ t.workspace ∷ t.snapshot ∷ []) h in
    ground arith

-- The rows of a run are addressed by its scope and its id together: two scopes or two run ids
-- never share a key, whatever their texts hold.
pub row_key-injective :
    (s t : RunScope) (r q : Text)
    → row_key (scope_key s) r ≡ row_key (scope_key t) q
    → (s ≡ t) × (r ≡ q)
unfolding scope_key
row_key-injective s t r q h =
    let (same, rest) =
      row_key-split (scope_key s) (scope_key t) r q (NoNul-stringify _) (NoNul-stringify _) h in
    (scope_key-injective s t same, rest)

-- The idempotency tuple of scope, action and key is unambiguous.
pub idempotency_key_of-injective :
    (s t : RunScope) (a b k j : Text)
    → idempotency_key_of s a k ≡ idempotency_key_of t b j
    → (s ≡ t) × (a ≡ b) × (k ≡ j)
unfolding idempotency_key_of
idempotency_key_of-injective s t a b k j h =
    let e =
      stringify-injective (s.tenant ∷ s.workspace ∷ s.snapshot ∷ a ∷ k ∷ [])
        (t.tenant ∷ t.workspace ∷ t.snapshot ∷ b ∷ j ∷ []) h in
    (ground arith, ground arith, ground arith)

pub same_scope_iff : (s t : RunScope) → (same_scope s t ≡ true) ↔ (s ≡ t)
unfolding same_scope
same_scope_iff s t = ground (
  arith,
  same_text_iff s.tenant t.tenant,
  same_text_iff s.workspace t.workspace,
  same_text_iff s.snapshot t.snapshot,
)
