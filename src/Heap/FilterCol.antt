-- ===== src/Heap/FilterCol.antt =====
-- `detFilterColIdx`, which src/ir/ir_post_processing.cpp and src/ir_optimizations/
-- ir_optimizations.cpp both have.
pub mod Found
use db_query_optimizer.Common.{
  ℕ, zero, suc, ◌+◌, Bool, true, false, List, [], ◌∷◌, ◌++◌, length, map, any, ◌==◌, if◌then◌else◌,
}
use db_query_optimizer.Base.{TableColumn, table_eq}
use db_query_optimizer.Ir.{OpInfo, join_op}
use db_query_optimizer.Heap.{
  PlanNode, Heap, Cmd, pure, fails, fault, out_of_fuel, no_output, no_child, ◌>>=◌, load, at,
}

unfoldable pub is_join : OpInfo → Bool
is_join (join_op op) = true
is_join _ = false

-- Some column belongs to the table.
unfoldable pub has_table : TableColumn → List TableColumn → Bool
unfolding any table_eq
has_table c = any (λ o. table_eq o.table c.table)

-- One round of the `while` loop on the queue, and the rounds after it.
unfoldable pub search : ℕ → TableColumn → List ℕ → List (ℕ × ℕ) → Cmd ℕ
unfolding any has_table load
search zero c visited queue = fails out_of_fuel
search (suc fuel) c visited [] = pure 0
search (suc fuel) c visited ((idx, a) ∷ queue) = elim (any (λ v. v == a) visited) [
  | true ↦ search fuel c visited queue
  | false ↦ do
    n ← load a
    elim (has_table c n.ir_data.output_cols) [
      | true ↦ pure idx
      | false ↦ search fuel c (a ∷ visited) (queue ++ map (λ b. (idx, b)) n.children)
    ]
]

-- The children of the nodes that are not visited: what the queue may still take in.
unfoldable pub unvisited : List ℕ → List PlanNode → ℕ
unfolding any
unvisited visited [] = 0
unvisited visited (n ∷ ns) =
    (if any (λ v. v == length ns) visited then 0 else length n.children) + unvisited visited ns

-- The search below the children, with a round for each entry that the queue can get.
unfoldable pub search_below : TableColumn → PlanNode → Cmd ℕ
unfolding at search unvisited
search_below c n = do
  left ← at no_child n.children 0
  right ← at no_child n.children 1
  λ h. search (3 + unvisited [] h.nodes) c [] ((0, left) ∷ (1, right) ∷ []) h

-- A join whose first output is of another table.
unfoldable pub second_output : TableColumn → PlanNode → Cmd ℕ
unfolding table_eq at search_below
second_output c n = do
  second ← at no_output n.ir_data.output_cols 1
  if table_eq second.table c.table then pure 1 else search_below c n

unfoldable pub join_output : TableColumn → PlanNode → Cmd ℕ
unfolding table_eq at second_output
join_output c n = do
  first ← at no_output n.ir_data.output_cols 0
  if table_eq first.table c.table then pure 0 else second_output c n

-- `detFilterColIdx(idxCol, node)`
unfoldable pub det_filter_col_idx : TableColumn → ℕ → Cmd ℕ
unfolding is_join load join_output
det_filter_col_idx c a = do
  n ← load a
  if is_join n.ir_data.op_info then join_output c n else pure 0
