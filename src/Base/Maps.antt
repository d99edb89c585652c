-- ===== src/Base/Maps.antt =====
-- `std::map` over a key with `operator<`, from keys to pointers: `none` is the null pointer. A key is
-- found when neither it nor the other is less, and an entry keeps the key it was made with.
pub mod Held
use db_query_optimizer.Common.{ℕ, Option, none, some, List, [], ◌∷◌, if◌then◌else◌, ◌||◌, false}
use db_query_optimizer.Common.{Bool, ◌≡◌, arith}
use db_query_optimizer.Base.Sets.{equivalent}

-- The entries in the order in which they were made: nothing here depends on the order of the keys.
abbrev pub Map : Type 0 → Type 0
Map K = List (K × Option ℕ)

module _ {K : Type 0} (lt : K → K → Bool) where
  -- `m.count(k)`
  unfoldable pub holds_key : K → Map K → Bool
  unfolding equivalent
  holds_key k [] = false
  holds_key k ((l, v) ∷ m) = equivalent lt k l || holds_key k m

  -- The value of `m[k]`: null for a key that was missing.
  unfoldable pub value_at : K → Map K → Option ℕ
  unfolding equivalent
  value_at k [] = none
  value_at k ((l, v) ∷ m) = if equivalent lt k l then v else value_at k m

  -- `m[k] = v`
  unfoldable pub put : K → Option ℕ → Map K → Map K
  unfolding equivalent
  put k v [] = (k, v) ∷ []
  put k v ((l, w) ∷ m) =
      let rest = put k v m in if equivalent lt k l then (l, v) ∷ m else (l, w) ∷ rest

  -- What reading `m[k]` does to the map: a missing key is entered with a null pointer.
  unfoldable pub touch : K → Map K → Map K
  unfolding holds_key
  touch k m = if holds_key k m then m else (k, none) ∷ m

  -- `m.merge(n)`: the entries of `n` whose key `m` lacks.
  unfoldable pub merge : Map K → Map K → Map K
  unfolding holds_key
  merge m [] = m
  merge m ((k, v) ∷ n) = merge (if holds_key k m then m else (k, v) ∷ m) n

-- Every pointer of the map that is not null satisfies the predicate.
abbrev pub Points : {K : Type 0} → (ℕ → Type 0) → Map K → Type 0
Points P [] = Unit
Points P ((k, none) ∷ m) = Points P m
Points P ((k, some a) ∷ m) = P a × Points P m
