-- ===== src/Sequence.antt =====
-- include/util/sequentializer.hpp: the post-order of the nodes below a root. Nodes are addresses,
-- since plans share nodes once materializations are placed; `fuel` bounds the depth.
pub mod Order
pub mod Total
use db_query_optimizer.Common.{
  ℕ, zero, suc, Bool, true, false, ◌||◌, Option, none, some, List, [], ◌∷◌, ◌++◌, ◌==◌,
  if◌then◌else◌, ◌>>=◌,
}

-- `visited.find(n) != visited.cend()`
unfoldable pub mem : ℕ → List ℕ → Bool
mem x [] = false
mem x (y ∷ ys) = (x == y) || mem x ys

-- `visited` and `post_order_list`
pub record Progress : Type 0 where
  pub visited : List ℕ
  pub post_order_list : List ℕ

-- The loop over the children: `visit` is the recursive call.
unfoldable pub visit_children :
    (ℕ → Progress → Option Progress) → List ℕ → Progress → Option Progress
visit_children visit [] s = some s
visit_children visit (c ∷ cs) s =
    if mem c s.visited
    then visit_children visit cs s
    else visit c s >>= λ s'. visit_children visit cs s'

-- `to_sequence_children_list_sub`
unfoldable pub to_sequence_sub : (ℕ → List ℕ) → ℕ → ℕ → Progress → Option Progress
to_sequence_sub children zero cur_node s = none
to_sequence_sub children (suc fuel) cur_node s = do
  s' ←
      visit_children (to_sequence_sub children fuel) (children cur_node)
        (record s { visited = cur_node ∷ s.visited })
  some (record s' { post_order_list = s'.post_order_list ++ cur_node ∷ [] })

-- `to_sequence_children_list`
unfoldable pub to_sequence : (ℕ → List ℕ) → ℕ → ℕ → Option (List ℕ)
to_sequence children fuel cur_node = do
  s ← to_sequence_sub children fuel cur_node (record { visited = []; post_order_list = [] })
  some s.post_order_list

-- The children of `to_sequence_two_children_sub`: the pointers that are not null, left to right.
unfoldable pub two_children : (ℕ → Option ℕ) → (ℕ → Option ℕ) → ℕ → List ℕ
two_children left right n =
    elim (left n) [ none ↦ [] | some l ↦ l ∷ [] ] ++ elim (right n) [ none ↦ [] | some r ↦ r ∷ [] ]

-- `to_sequence_two_children`
unfoldable pub to_sequence_two_children : (ℕ → Option ℕ) → (ℕ → Option ℕ) → ℕ → ℕ → Option (List ℕ)
to_sequence_two_children left right fuel cur_node =
    to_sequence (two_children left right) fuel cur_node
