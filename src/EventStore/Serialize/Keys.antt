-- ===== src/EventStore/Serialize/Keys.antt =====
-- The order in which a JavaScript object has its keys: array indices first, by their number, and
-- then the other keys. JSON.stringify writes them in this order.
use prime_system.Base.{
  ℕ, ◌+◌, ◌*◌, ◌-◌, Text, Bool, true, false, ◌&&◌, [], ◌∷◌, Option, none, some, ltb, leb, every,
  text_lt, if◌then◌else◌,
}

abbrev is_digit : ℕ → Bool
is_digit c = leb b'0' c && leb c b'9'

abbrev number_from : ℕ → Text → ℕ
number_from n [] = n
number_from n (c ∷ cs) = number_from (n * 10 + (c - b'0')) cs

-- The decimal digits of a number, without a zero before them.
abbrev is_canonical : Text → Bool
is_canonical [] = false
is_canonical (c ∷ []) = is_digit c
is_canonical (c ∷ d ∷ cs) = leb b'1' c && every is_digit (c ∷ d ∷ cs)

-- An array index is less than 2^32 - 1.
unfoldable pub array_index : Text → Option ℕ
array_index key =
    if is_canonical key && ltb (number_from 0 key) 4294967295
    then some (number_from 0 key)
    else none

abbrev index_lt : Option ℕ → Option ℕ → Bool → Bool
index_lt (some m) (some n) texts = ltb m n
index_lt (some m) none texts = true
index_lt none (some n) texts = false
index_lt none none texts = texts

-- The order of the keys of an object that is given its keys in the order of texts.
unfoldable pub key_lt : Text → Text → Bool
key_lt a b = index_lt (array_index a) (array_index b) (text_lt a b)
