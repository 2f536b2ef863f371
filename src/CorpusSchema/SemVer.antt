-- ===== src/CorpusSchema/SemVer.antt =====
-- packages/corpus-schema/src/semver.ts, from the parsed tokens on: a partial is what `parsePartial`
-- gives, and a clause is a wildcard, a hyphenated pair or a list of comparators. Identifiers are
-- ASCII, so that their order is that of their code points; a number is exact.
pub mod Order
pub mod Ranges
pub mod Satisfies
pub mod Resolve
pub mod Prerelease
use prime_system.Base.{
  ℕ, zero, suc, ◌+◌, ◌*◌, ◌-◌, Text, Bool, true, false, not, ◌&&◌, ◌||◌, List, [], ◌∷◌, ◌++◌,
  Option, none, some, if◌then◌else◌, leb, eqb, any, every, filter,
}
use Prim.Native.Nat.{compare, Ordering}
use prime_system.Base.Sorting.{sort}

pub data Identifier : Type 0 where
  numeric : ℕ → Identifier
  alphanumeric : Text → Identifier

pub record SemVer : Type 0 where
  pub major : ℕ
  pub minor : ℕ
  pub patch : ℕ
  pub prerelease : List Identifier
  pub build : Option Text
  pub raw : Text

abbrev pub then_by : Ordering → Ordering → Ordering
then_by Ordering.lt o = Ordering.lt
then_by Ordering.eq o = o
then_by Ordering.gt o = Ordering.gt

-- The loop over two lists, and the order of two texts.
unfoldable pub lex_order : {A : Type 0} → (A → A → Ordering) → List A → List A → Ordering
lex_order cmp [] [] = Ordering.eq
lex_order cmp [] (b ∷ bs) = Ordering.lt
lex_order cmp (a ∷ as') [] = Ordering.gt
lex_order cmp (a ∷ as') (b ∷ bs) = then_by (cmp a b) (lex_order cmp as' bs)

unfoldable pub compare_identifier : Identifier → Identifier → Ordering
compare_identifier (numeric a) (numeric b) = compare a b
compare_identifier (numeric a) (alphanumeric b) = Ordering.lt
compare_identifier (alphanumeric a) (numeric b) = Ordering.gt
compare_identifier (alphanumeric a) (alphanumeric b) = lex_order compare a b

-- `comparePrerelease`
unfoldable pub compare_prerelease : List Identifier → List Identifier → Ordering
compare_prerelease [] [] = Ordering.eq
compare_prerelease [] (b ∷ bs) = Ordering.gt
compare_prerelease (a ∷ as') [] = Ordering.lt
compare_prerelease (a ∷ as') (b ∷ bs) = lex_order compare_identifier (a ∷ as') (b ∷ bs)

-- `compareSemVer`
unfoldable pub compare_sem_ver : SemVer → SemVer → Ordering
compare_sem_ver left right = then_by (compare left.major right.major) (
    then_by (compare left.minor right.minor) (
      then_by (compare left.patch right.patch)
        (compare_prerelease left.prerelease right.prerelease)))
