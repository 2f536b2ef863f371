-- ===== src/EventStore/Redaction/Compose.antt =====
-- identityRedactor and composeRedactors of packages/event-store/src/redaction.ts, on what both of
-- their methods do to a value.
use prime_system.Base.{◌≡◌, refl, sym, ◌∙◌, List, [], ◌∷◌, ◌++◌}
use prime_system.EventStore.Values.{
  JsValue, ref, Outcome, done, thrown, exhausted, ◌>>=◌, Objects, content,
}

abbrev pub RedactsValue : Type 0
RedactsValue = Objects → JsValue → Outcome JsValue

unfoldable pub identity_redactor : RedactsValue
identity_redactor objects value = done value

-- Left to right, each over the result of the one before.
unfoldable pub compose_redactors : List RedactsValue → RedactsValue
compose_redactors [] objects value = done value
compose_redactors (redactor ∷ redactors) objects value =
    redactor objects value >>= λ current. compose_redactors redactors objects current

-- `{ ...payload }`: the copy of a shared object is written in place.
abbrev shallow : Objects → JsValue → JsValue
shallow objects (ref a) = content objects a
shallow objects value = value

unfoldable pub compose_event : List RedactsValue → RedactsValue
unfolding compose_redactors
compose_event redactors objects payload =
    compose_redactors redactors objects (shallow objects payload)

bind_assoc :
    {A B C : Type 0} (m : Outcome A) (f : A → Outcome B) (g : B → Outcome C)
    → ((m >>= f) >>= g) ≡ (m >>= λ a. f a >>= g)
bind_assoc (done a) f g = refl
bind_assoc thrown f g = refl
bind_assoc exhausted f g = refl

bind_cong :
    {A B : Type 0} (m : Outcome A) (f g : A → Outcome B)
    → ((a : A) → f a ≡ g a)
    → (m >>= f) ≡ (m >>= g)
bind_cong (done a) f g h = h a
bind_cong thrown f g h = refl
bind_cong exhausted f g h = refl

-- Composing two lists of redactors is composing the first and then the second over its result,
-- whatever the redactors are, also where one of them throws.
pub compose_redactors-append :
    (first second : List RedactsValue) (objects : Objects) (value : JsValue)
    → compose_redactors (first ++ second) objects value ≡ (
        compose_redactors first objects value >>= λ current.
        compose_redactors second objects current)
unfolding compose_redactors
compose_redactors-append [] second objects value = refl
compose_redactors-append (redactor ∷ first) second objects value =
    bind_cong (redactor objects value) _ _
      (λ current. compose_redactors-append first second objects current)
    ∙ sym (bind_assoc (redactor objects value) _ _)
