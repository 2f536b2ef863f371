-- ===== src/Base/Maps.antt =====
-- JavaScript's `Map` as an association list: `set` keeps the place of a key that is there, and puts
-- a new key last.
use mathlib.Core.Path.{◌≡◌, refl}
use mathlib.Core.Bool.{false}
use mathlib.Core.Option.{Option, none, some}
use mathlib.Core.List.{List, [], ◌∷◌}
use native.Mathlib.Omega.{arith}
use prime_system.Base.Tests.{if◌then◌else◌}
use prime_system.Base.Strings.{Eq}

module _ {ℓ κ} {K : Type ℓ} {V : Type κ} ⦃e : Eq K⦄ where
  unfoldable pub get : K → List (K × V) → Option V
  get k [] = none
  get k ((j, v) ∷ m) = if e.beq j k then some v else get k m

  unfoldable pub set : K → V → List (K × V) → List (K × V)
  set k v [] = (k, v) ∷ []
  set k v ((j, w) ∷ m) = if e.beq j k then (k, v) ∷ m else (j, w) ∷ set k v m

  pub get-set :
      (k j : K) (v : V) (m : List (K × V))
      → get j (set k v m) ≡ (if e.beq k j then some v else get j m)
  unfolding get set
  get-set k j v [] = refl
  get-set k j v ((i, w) ∷ m) =
      ground (arith, e.beq_iff k j, e.beq_iff i k, e.beq_iff i j, get-set k j v m)

  pub get-set_self : (k : K) (v : V) (m : List (K × V)) → get k (set k v m) ≡ some v
  get-set_self k v m = rw (get-set k k v m, (e.beq_iff k k).1 refl)

  pub get-set_other :
      (k j : K) (v : V) (m : List (K × V)) → e.beq k j ≡ false → get j (set k v m) ≡ get j m
  get-set_other k j v m h = rw (get-set k j v m, h)
