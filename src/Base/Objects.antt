-- ===== src/Base/Objects.antt =====
-- Reading a plain object by a key, `object[key]`, where the key may be a name that every plain
-- object inherits.
use Prim.Native.String.{String}
use mathlib.Core.Bool.{Bool, false}
use mathlib.Core.Option.{none, some}
use mathlib.Core.List.{List, [], ◌∷◌}
use prime_system.Base.Strings.{string_eq, includes}
use prime_system.Base.Maps.{get}

-- The names of `Object.prototype`.
abbrev pub inherited_names : List String
inherited_names =
    "constructor" ∷ "__defineGetter__" ∷ "__defineSetter__" ∷ "hasOwnProperty" ∷ "__lookupGetter__"
    ∷ "__lookupSetter__" ∷ "isPrototypeOf" ∷ "propertyIsEnumerable" ∷ "toString" ∷ "valueOf"
    ∷ "__proto__" ∷ "toLocaleString" ∷ []

-- An object, given by its own fields, has what it inherits under the key.
unfoldable pub inherits {ℓ} : {V : Type ℓ} → String → List (String × V) → Bool
inherits key object = elim (get key object) [ some v ↦ false | none ↦ includes inherited_names key ]
