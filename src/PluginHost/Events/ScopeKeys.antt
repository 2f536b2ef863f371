-- ===== src/PluginHost/Events/ScopeKeys.antt =====
-- scopeKey of packages/plugin-host/src/events.ts.
use prime_system.Base.{
  ℕ, ◌/◌, ◌%◌, Text, String, string_eq, ◌≡◌, refl, sym, ap, ◌∙◌, arith, Bool, true, false, not,
  ◌&&◌, List, [], ◌∷◌, ◌++◌, if◌then◌else◌, if-holds, eqb, map, every,
}
use mathlib.Core.List.{append-nil, append_assoc}
use prime_system.PluginHost.Events.{
  Scope, fields_of, scope_fields, is_unreserved, hex, percent, utf8, percents, encode_char, encode,
  join_slash, key_of, key_for, scope_key, blank_fields,
}

abbrev slashless : Text → Bool
slashless t = every (λ c. not (eqb c b'/')) t

slashless-append : (s t : Text) → slashless (s ++ t) ≡ (slashless s && slashless t)
slashless-append [] t = refl
slashless-append (c ∷ s) t = ground (arith, slashless-append s t)

hex-not_slash : (d : ℕ) → eqb (hex d) b'/' ≡ false
unfolding hex
hex-not_slash d = ground arith

slashless-percents : (bs : List ℕ) → slashless (percents bs) ≡ true
unfolding percents percent
slashless-percents [] = refl
slashless-percents (b ∷ bs) =
    ground (arith, hex-not_slash (b / 16), hex-not_slash (b % 16), slashless-percents bs)

unreserved-not_slash : (c : ℕ) → is_unreserved c ≡ true → eqb c b'/' ≡ false
unfolding is_unreserved
unreserved-not_slash c h = ground arith

slashless-encode : (t : Text) → slashless (encode t) ≡ true
unfolding encode encode_char
slashless-encode [] = refl
slashless-encode (c ∷ t) =
    slashless-append (encode_char c) (encode t)
    ∙ if-holds (λ s. (slashless s && slashless (encode t)) ≡ true) (is_unreserved c) _ _
        (λ h. ground (arith, unreserved-not_slash c h, slashless-encode t))
        (λ h. ground (arith, slashless-percents (utf8 c), slashless-encode t))

-- `key.split("/")`
unfoldable pub split_slash : Text → Text → List Text
split_slash current [] = current ∷ []
split_slash current (c ∷ cs) =
    let next_field = split_slash [] cs in
    let same_field = split_slash (current ++ c ∷ []) cs in
    if eqb c b'/' then current ∷ next_field else same_field

split_slash-end :
    (current t : Text) → slashless t ≡ true → split_slash current t ≡ (current ++ t) ∷ []
unfolding split_slash
split_slash-end current [] h = ap (λ l. l ∷ []) (sym (append-nil current))
split_slash-end current (c ∷ t) h =
    rw (slash_free c t h, split_slash-end (current ++ c ∷ []) t (ground (arith, h)), append_assoc)
      refl
  where
    slash_free : (c : ℕ) (t : Text) → slashless (c ∷ t) ≡ true → eqb c b'/' ≡ false
    slash_free c t h = ground (arith, h)

split_slash-field :
    (current t rest : Text)
    → slashless t ≡ true
    → split_slash current (t ++ (b'/' ∷ rest)) ≡ (current ++ t) ∷ split_slash [] rest
unfolding split_slash
split_slash-field current [] rest h = ap (λ l. l ∷ split_slash [] rest) (sym (append-nil current))
split_slash-field current (c ∷ t) rest h =
    rw
      (
        slash_free c t h,
        split_slash-field (current ++ c ∷ []) t rest (ground (arith, h)),
        append_assoc,
      )
      refl
  where
    slash_free : (c : ℕ) (t : Text) → slashless (c ∷ t) ≡ true → eqb c b'/' ≡ false
    slash_free c t h = ground (arith, h)

split-join :
    (t : Text) (ts : List Text)
    → split_slash [] (join_slash (map encode (t ∷ ts))) ≡ map encode (t ∷ ts)
unfolding join_slash
split-join t [] = split_slash-end [] (encode t) (slashless-encode t)
split-join t (u ∷ ts) =
    split_slash-field [] (encode t) (join_slash (map encode (u ∷ ts))) (slashless-encode t)
    ∙ ap (λ l. encode t ∷ l) (split-join u ts)

key_for-eq :
    (names : List String) (scope : Scope) (key : Text)
    → key_for names scope ≡ key_of key
    → (names ≡ []) × (join_slash (map encode (fields_of scope)) ≡ key)
key_for-eq [] scope key h = (refl, ground (arith, h))
key_for-eq (name ∷ names) scope key h = ground (arith, h)

-- A scope has a key only if none of its seven fields is blank, and splitting the key at its slashes
-- gives the seven fields, encoded: no field can pass for two, or two for one.
pub scope_key_fields :
    (scope : Scope) (key : Text)
    → scope_key scope ≡ key_of key
    → (blank_fields scope_fields (fields_of scope) ≡ [])
      × (split_slash [] key ≡ map encode (fields_of scope))
unfolding scope_key fields_of
scope_key_fields scope key h =
    let (complete, same) = key_for-eq _ scope key h in
    (
      complete,
      ap (split_slash []) (sym same)
          ∙ split-join scope.tenant (
              scope.workspace ∷ scope.corpus ∷ scope.release ∷ scope.unit_id ∷ scope.version
              ∷ scope.digest ∷ []),
    )
