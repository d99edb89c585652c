-- ===== src/Base/Sets.antt =====
-- `std::set` over a type with `operator<`: a list sorted by `<`, in which an element is found, and
-- taken for a duplicate, when neither it nor the other is less.
use db_query_optimizer.Common.{
  Bool, true, false, ◌&&◌, ◌||◌, not, List, [], ◌∷◌, if◌then◌else◌, ◌≡◌, refl, arith,
}

module _ {A : Type 0} (lt : A → A → Bool) where
  -- What a `std::set` takes for equal.
  unfoldable pub equivalent : A → A → Bool
  equivalent x y = not (lt x y) && not (lt y x)

  -- `s.contains(x)`
  unfoldable pub contains : A → List A → Bool
  unfolding equivalent
  contains x [] = false
  contains x (y ∷ ys) = equivalent x y || contains x ys

  -- `s.insert(x)`
  unfoldable pub insert : A → List A → List A
  insert x [] = x ∷ []
  insert x (y ∷ ys) =
      let rest = insert x ys in if lt x y then x ∷ y ∷ ys else if lt y x then y ∷ rest else y ∷ ys

  -- `s.insert(first, last)`, and a set built from such a range
  unfoldable pub insert_all : List A → List A → List A
  unfolding insert
  insert_all [] s = s
  insert_all (x ∷ xs) s = insert_all xs (insert x s)

-- `operator<` is a strict weak ordering, as `std::set` requires.
pub record IsStrictWeak {A : Type 0} (lt : A → A → Bool) : Type 0 where
  pub irreflexive : (x : A) → lt x x ≡ false
  pub transitive : (x y z : A) → lt x y ≡ true → lt y z ≡ true → lt x z ≡ true
  pub equivalent_trans :
      (x y z : A) → equivalent lt x y ≡ true → equivalent lt y z ≡ true → equivalent lt x z ≡ true

-- A set holds `x` after an insertion of `y` exactly when `x` is `y`, for the set, or was held before.
pub contains-insert :
    {A : Type 0} (lt : A → A → Bool) (law : IsStrictWeak lt) (x y : A) (s : List A)
    → contains lt x (insert lt y s) ≡ equivalent lt x y || contains lt x s
unfolding contains insert
contains-insert lt law x y [] = ground arith
contains-insert lt law x y (z ∷ s) =
    ground (arith, contains-insert lt law x y s, law.equivalent_trans x y z)

pub contains-insert_all :
    {A : Type 0} (lt : A → A → Bool) (law : IsStrictWeak lt) (x : A) (ys s : List A)
    → contains lt x (insert_all lt ys s) ≡ contains lt x ys || contains lt x s
unfolding contains insert_all
contains-insert_all lt law x [] s = refl
contains-insert_all lt law x (y ∷ ys) s =
    ground (arith, contains-insert_all lt law x ys (insert lt y s), contains-insert lt law x y s)
