-- ===== src/Tests/Traversal.antt =====
-- The traversal of a plan that shares a node.
use db_query_optimizer.Common.{
  ℕ, ◌<◌, true, some, List, [], ◌∷◌, ◌==◌, if◌then◌else◌, ◌≡◌, ◌↔◌, arith,
}
use db_query_optimizer.Sequence.{mem, to_sequence}
use db_query_optimizer.Sequence.Order.{PostOrder, Below}
use db_query_optimizer.Sequence.Total.{to_sequence-PostOrder}

-- 3 has the children 1 and 2, which share the child 0.
abbrev diamond : ℕ → List ℕ
diamond n = if n == 3 then 1 ∷ 2 ∷ [] else if n == 2 then 0 ∷ [] else if n == 1 then 0 ∷ [] else []

abbrev own_rank : ℕ → ℕ
own_rank n = n

diamond_acyclic : (n c : ℕ) → mem c (diamond n) ≡ true → own_rank c < own_rank n
unfolding mem
diamond_acyclic n c h = ground arith

to_sequence-PostOrder_example :
    (xs : List ℕ) × (to_sequence diamond 4 3 ≡ some xs)
    × PostOrder diamond xs
    × ((x : ℕ) → (mem x xs ≡ true) ↔ Below diamond 3 x)
to_sequence-PostOrder_example =
    to_sequence-PostOrder diamond own_rank diamond_acyclic 4 3 (omega arith)
