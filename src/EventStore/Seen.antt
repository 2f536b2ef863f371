-- ===== src/EventStore/Seen.antt =====
-- The set of the shared objects on the path of a walk, as serialize.ts and redaction.ts of
-- packages/event-store/src keep it.
use prime_system.Base.{
  ℕ, zero, suc, ◌+◌, ◌<◌, ◌≤◌, ◌≡◌, refl, Bool, false, ◌||◌, List, [], ◌∷◌, if◌then◌else◌, eqb,
  arith,
}

-- `seen.has(object)`
abbrev pub seen_has : List ℕ → ℕ → Bool
seen_has [] a = false
seen_has (b ∷ seen) a = eqb b a || seen_has seen a

-- How many of the first n objects are not on the path.
abbrev pub unseen : ℕ → List ℕ → ℕ
unseen zero seen = 0
unseen (suc n) seen = (if seen_has seen n then 0 else 1) + unseen n seen

pub unseen-le : (n a : ℕ) (seen : List ℕ) → unseen n (a ∷ seen) ≤ unseen n seen
unseen-le zero a seen = omega arith
unseen-le (suc n) a seen = ground (arith, unseen-le n a seen)

pub unseen-lt :
    (n a : ℕ) (seen : List ℕ)
    → a < n
    → seen_has seen a ≡ false
    → unseen n (a ∷ seen) < unseen n seen
unseen-lt zero a seen h k = elim h [ ]
unseen-lt (suc n) a seen h k = ground (arith, unseen-lt n a seen, unseen-le n a seen)

pub unseen-nil : (n : ℕ) → unseen n [] ≡ n
unseen-nil zero = refl
unseen-nil (suc n) = omega (arith, unseen-nil n)
