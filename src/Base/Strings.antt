-- ===== src/Base/Strings.antt =====
-- Texts as lists of code points, where the program walks them or joins them into keys; equality;
-- and the order of JavaScript, which compares texts by their UTF-16 code units.
use Prim.Native.Nat.{ℕ, ◌+◌, ◌-◌, ◌/◌, ◌%◌}
use Prim.Native.Char.{code}
use Prim.Native.String
use Prim.Native.String.{String}
use mathlib.Core.Path.{◌≡◌}
use mathlib.Core.Logic.{◌↔◌}
use mathlib.Core.Bool.{Bool, true, false, ◌||◌, ◌&&◌}
use mathlib.Core.List.{List, [], ◌∷◌}
use native.Mathlib.Omega.{arith}
use text.Mathlib.Text.{◌==◌}
use text.Mathlib.TextEquality.{eq_iff}
use prime_system.Base.Tests.{ltb, eqb, if◌then◌else◌}

-- The code points of a text.
abbrev pub codes : String → List ℕ
codes String.[] = []
codes (String.◌∷◌ c s) = code c ∷ codes s

-- A text that is given by its code points.
abbrev pub Text : Type 0
Text = List ℕ

unfoldable pub same_text : Text → Text → Bool
same_text [] [] = true
same_text [] (d ∷ ds) = false
same_text (c ∷ cs) [] = false
same_text (c ∷ cs) (d ∷ ds) = eqb c d && same_text cs ds

pub same_text_iff : (s t : Text) → (same_text s t ≡ true) ↔ (s ≡ t)
unfolding same_text
same_text_iff [] [] = ground arith
same_text_iff [] (d ∷ ds) = ground arith
same_text_iff (c ∷ cs) [] = ground arith
same_text_iff (c ∷ cs) (d ∷ ds) = ground (arith, same_text_iff cs ds)

pub record Eq {ℓ} (A : Type ℓ) : Type ℓ where
  pub beq : A → A → Bool
  pub beq_iff : (a b : A) → (beq a b ≡ true) ↔ (a ≡ b)

instance abbrev pub string_eq : Eq String
string_eq = record { beq = ◌==◌; beq_iff = eq_iff }

instance abbrev pub text_eq : Eq Text
text_eq = record { beq = same_text; beq_iff = same_text_iff }

-- The UTF-16 code units of a text.
units : Text → List ℕ
units [] = []
units (c ∷ s) =
    let rest = units s in
    if ltb c 65536
    then c ∷ rest
    else (55296 + (c - 65536) / 1024) ∷ (56320 + (c - 65536) % 1024) ∷ rest

lex_lt : List ℕ → List ℕ → Bool
lex_lt xs [] = false
lex_lt [] (y ∷ ys) = true
lex_lt (x ∷ xs) (y ∷ ys) =
    let rest = lex_lt xs ys in if ltb x y then true else if eqb x y then rest else false

-- `a < b` on texts.
unfoldable pub text_lt : Text → Text → Bool
unfolding units lex_lt
text_lt a b = lex_lt (units a) (units b)

unfoldable pub str_lt : String → String → Bool
unfolding text_lt
str_lt a b = text_lt (codes a) (codes b)

-- `array.includes(a)`, and `set.has(a)` of a Set that is kept as a list.
abbrev pub includes : List String → String → Bool
includes [] a = false
includes (x ∷ xs) a = x == a || includes xs a

-- Concatenation of texts; `++` is that of lists.
infixr 65 ◌⧺◌
abbrev pub ◌⧺◌ : String → String → String
a ⧺ b = String.◌++◌ a b
