-- ===== src/Base/Sets.antt =====
-- JavaScript's Set of texts as a list, and membership in the lists that the source builds.
use Prim.Native.String.{String}
use mathlib.Core.Path.{◌≡◌, refl, ap, sym, ◌∙◌}
use mathlib.Core.Bool.{Bool, true, false, not, ◌||◌, ◌&&◌}
use mathlib.Core.List.{List, [], ◌∷◌, ◌++◌}
use native.Mathlib.Omega.{arith}
use text.Mathlib.Text.{◌==◌}
use text.Mathlib.TextEquality.{eq_iff}
use prime_system.Base.Tests.{if◌then◌else◌, if-holds, Bool-cases}
use mathlib.Core.Logic.{inl, inr}
use prime_system.Base.Lists.{filter, length, every, In, here, there}
use Prim.Native.Nat.{suc}
use prime_system.Base.Sorting.{sort, insert_sorted}
use prime_system.Base.Strings.{includes}

-- `[...new Set(xs)]`: each text once, where it stands first.
abbrev pub unique_from : List String → List String → List String
unique_from seen [] = []
unique_from seen (x ∷ xs) =
    let rest = unique_from seen xs in
    let fresh = unique_from (x ∷ seen) xs in if includes seen x then rest else x ∷ fresh

abbrev pub unique : List String → List String
unique xs = unique_from [] xs

-- No text stands twice.
abbrev pub distinct : List String → Bool
distinct [] = true
distinct (x ∷ xs) = not (includes xs x) && distinct xs

pub includes-unique_from :
    (seen xs : List String) (a : String)
    → (includes seen a || includes (unique_from seen xs) a) ≡ (includes seen a || includes xs a)
includes-unique_from seen [] a = refl
includes-unique_from seen (x ∷ xs) a =
    ground (arith, includes-unique_from seen xs a, includes-unique_from (x ∷ seen) xs a, eq_iff x a)

pub includes-unique : (xs : List String) (a : String) → includes (unique xs) a ≡ includes xs a
includes-unique xs a = includes-unique_from [] xs a

pub includes-filter :
    (p : String → Bool) (xs : List String) (a : String)
    → includes (filter p xs) a ≡ (includes xs a && p a)
includes-filter p [] a = refl
includes-filter p (x ∷ xs) a = ground (arith, includes-filter p xs a, eq_iff x a)

pub includes-append :
    (xs ys : List String) (a : String) → includes (xs ++ ys) a ≡ (includes xs a || includes ys a)
includes-append [] ys a = refl
includes-append (x ∷ xs) ys a = ground (arith, includes-append xs ys a)

pub includes-insert_sorted :
    (lt : String → String → Bool) (x : String) (xs : List String) (a : String)
    → includes (insert_sorted lt x xs) a ≡ (x == a || includes xs a)
unfolding insert_sorted
includes-insert_sorted lt x [] a = refl
includes-insert_sorted lt x (y ∷ ys) a = ground (arith, includes-insert_sorted lt x ys a)

pub includes-sort :
    (lt : String → String → Bool) (xs : List String) (a : String)
    → includes (sort lt xs) a ≡ includes xs a
unfolding sort
includes-sort lt [] a = refl
includes-sort lt (x ∷ xs) a =
    ground (arith, includes-insert_sorted lt x (sort lt xs) a, includes-sort lt xs a)

pub length-insert_sorted {ℓ} :
    {A : Type ℓ} (lt : A → A → Bool) (x : A) (xs : List A)
    → length (insert_sorted lt x xs) ≡ suc (length xs)
unfolding insert_sorted
length-insert_sorted lt x [] = refl
length-insert_sorted lt x (y ∷ ys) = ground (arith, length-insert_sorted lt x ys)

pub length-sort {ℓ} :
    {A : Type ℓ} (lt : A → A → Bool) (xs : List A) → length (sort lt xs) ≡ length xs
unfolding sort
length-sort lt [] = refl
length-sort lt (x ∷ xs) = ground (arith, length-insert_sorted lt x (sort lt xs), length-sort lt xs)

pub In-insert_sorted {ℓ} :
    {A : Type ℓ} (lt : A → A → Bool) (x : A) (xs : List A) (a : A)
    → In a (x ∷ xs)
    → In a (insert_sorted lt x xs)
unfolding insert_sorted
In-insert_sorted lt x [] a i = i
In-insert_sorted lt x (y ∷ ys) a i =
    if-holds (In a) (lt y x) _ _ (λ h. deeper lt x y ys a i (In-insert_sorted lt x ys a)) (λ h. i)
  where
    deeper :
        {A : Type ℓ} (lt : A → A → Bool) (x y : A) (ys : List A) (a : A)
        → In a (x ∷ y ∷ ys)
        → (In a (x ∷ ys) → In a (insert_sorted lt x ys))
        → In a (y ∷ insert_sorted lt x ys)
    deeper lt x y ys a (here e) k = there (k (here e))
    deeper lt x y ys a (there (here e)) k = here e
    deeper lt x y ys a (there (there i)) k = there (k (there i))

pub In-sort {ℓ} :
    {A : Type ℓ} (lt : A → A → Bool) (xs : List A) (a : A) → In a xs → In a (sort lt xs)
unfolding sort
In-sort lt [] a i = elim i [ ]
In-sort lt (x ∷ xs) a (here e) = In-insert_sorted lt x (sort lt xs) a (here e)
In-sort lt (x ∷ xs) a (there i) = In-insert_sorted lt x (sort lt xs) a (there (In-sort lt xs a i))

pub In-insert_sorted_back :
    {A : Type 0} (lt : A → A → Bool) (x : A) (xs : List A) (a : A)
    → In a (insert_sorted lt x xs)
    → In a (x ∷ xs)
unfolding insert_sorted
In-insert_sorted_back lt x [] a i = i
In-insert_sorted_back {A} lt x (y ∷ ys) a i = back (lt y x) (In-insert_sorted_back lt x ys a) i
  where
    under : In a (x ∷ ys) → In a (x ∷ y ∷ ys)
    under (here e) = here e
    under (there j) = there (there j)

    back :
        (b : Bool)
        → (In a (insert_sorted lt x ys) → In a (x ∷ ys))
        → In a (if b then y ∷ insert_sorted lt x ys else x ∷ y ∷ ys)
        → In a (x ∷ y ∷ ys)
    back true k (here e) = there (here e)
    back true k (there j) = under (k j)
    back false k i = i

pub In-sort_back :
    {A : Type 0} (lt : A → A → Bool) (xs : List A) (a : A) → In a (sort lt xs) → In a xs
unfolding sort
In-sort_back lt [] a i = i
In-sort_back {A} lt (x ∷ xs) a i =
    back (In-sort_back lt xs a) (In-insert_sorted_back lt x (sort lt xs) a i)
  where
    back : (In a (sort lt xs) → In a xs) → In a (x ∷ sort lt xs) → In a (x ∷ xs)
    back k (here e) = here e
    back k (there j) = there (k j)

pub every-In {ℓ} :
    {A : Type ℓ} (p : A → Bool) (xs : List A) (a : A) → every p xs ≡ true → In a xs → p a ≡ true
every-In p [] a h i = elim i [ ]
every-In p (x ∷ xs) a h (here e) = ap p (sym e) ∙ ground (arith, h)
every-In p (x ∷ xs) a h (there i) = every-In p xs a (ground (arith, h)) i

pub every-includes :
    (p : String → Bool) (xs : List String) (a : String)
    → every p xs ≡ true
    → includes xs a ≡ true
    → p a ≡ true
every-includes p [] a h i = ground (arith, i)
every-includes p (x ∷ xs) a h i = elim (Bool-cases (x == a)) [
  | inl e ↦ ap p (sym ((eq_iff x a).0 e)) ∙ ground (arith, h)
  | inr e ↦ every-includes p xs a (ground (arith, h)) (ground (arith, i, e))
]
