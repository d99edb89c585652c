-- ===== src/Materialize/GrandChildren.antt =====
-- `grandChildrenOptimization` of src/ir_optimizations/ir_optimizations.cpp. The recursion goes to
-- older nodes only, so its depth is at most the address of the root.
pub mod Kept
pub mod Rewires
pub mod Returns
use db_query_optimizer.Common.{
  ℕ, zero, suc, Bool, true, false, ◌&&◌, Option, none, some, List, [], ◌∷◌, length, any, ◌==◌,
  if◌then◌else◌,
}
use db_query_optimizer.Base.{TableColumn, column_eq}
use db_query_optimizer.Ir.{IrData, OpInfo, mat_op}
use db_query_optimizer.Ir.GroupView
use db_query_optimizer.Heap.{
  PlanNode, plan_node, Heap, Cmd, ok, pure, fails, out_of_fuel, no_child, no_input, ◌>>=◌, ◌>>◌,
  load, at, store,
}

unfoldable pub is_mat : OpInfo → Bool
is_mat mat_op = true
is_mat _ = false

-- The first output that is the column.
unfoldable pub same_output : TableColumn → List TableColumn → Option TableColumn
unfolding column_eq
same_output c [] = none
same_output c (o ∷ os) = let rest = same_output c os in if column_eq o c then some o else rest

-- The column, if a node outputs its values: a group's values are the result of its aggregation.
unfoldable pub output_values : TableColumn → IrData → Option TableColumn
unfolding GroupView.view_if GroupView.agg_result_col column_eq same_output
output_values c d = elim (GroupView.view_if d) [
  | some op ↦ elim (GroupView.agg_result_col op d) [
    | some r ↦ if column_eq r c then some r else none
    | none ↦ none
  ]
  | none ↦ same_output c d.output_cols
]

unfoldable pub values_of : TableColumn → IrData → Option TableColumn
unfolding output_values
values_of c d = if d.outputs_mat_vals then output_values c d else none

-- The loop over the children of the filter child's filter child.
unfoldable pub find_values : TableColumn → List ℕ → Cmd (Option (ℕ × TableColumn))
unfolding load values_of
find_values c [] = pure none
find_values c (b ∷ bs) = do
  m ← load b
  elim (values_of c m.ir_data) [ some o ↦ pure (some (b, o)) | none ↦ find_values c bs ]

-- `v[0] = x; v[1] = y;`
unfoldable pub set_two : {A : Type 0} → A → A → List A → List A
set_two x y [] = []
set_two x y (v ∷ []) = x ∷ []
set_two x y (v ∷ w ∷ r) = x ∷ y ∷ r

-- The materialization of the values that were found, by the filter child's own filter.
unfoldable pub rewired : PlanNode → ℕ → TableColumn → ℕ → TableColumn → PlanNode
unfolding set_two
rewired n idx_child idx_col filter_child filter_col =
    plan_node
      (record n.ir_data { input_columns = set_two idx_col filter_col n.ir_data.input_columns })
      (set_two idx_child filter_child n.children)

-- A materialization of values, whose filter child is a materialization of a position list.
unfoldable pub optimize_filter : ℕ → PlanNode → PlanNode → Cmd (Unit {0})
unfolding load at find_values rewired store
optimize_filter a n f = do
  g ← at no_child f.children 1
  inner ← load g
  idx_col ← at no_input n.ir_data.input_columns 0
  found ← find_values idx_col inner.children
  elim found [
    | none ↦ pure tt
    | some (b, col) ↦ do
      filter_col ← at no_input f.ir_data.input_columns 1
      store a (rewired n b col g filter_col)
  ]

unfoldable pub optimize_values : ℕ → PlanNode → Cmd (Unit {0})
unfolding load at is_mat optimize_filter
optimize_values a n = do
  filter_child ← at no_child n.children 1
  f ← load filter_child
  if is_mat f.ir_data.op_info && f.ir_data.outputs_pos_list then optimize_filter a n f else pure tt

unfoldable pub optimize_node : ℕ → Cmd (Unit {0})
unfolding load is_mat optimize_values
optimize_node a = do
  n ← load a
  if is_mat n.ir_data.op_info && n.ir_data.outputs_mat_vals then optimize_values a n else pure tt

-- The loop over the children, with the set of visited nodes handed on.
unfoldable pub for_children : (ℕ → List ℕ → Cmd (List ℕ)) → List ℕ → List ℕ → Cmd (List ℕ)
for_children visit [] visited = pure visited
for_children visit (c ∷ cs) visited = do seen ← visit c visited; for_children visit cs seen

-- `grandChildrenOptimizationSub`
unfoldable pub grand_children_optimization_sub : ℕ → ℕ → List ℕ → Cmd (List ℕ)
unfolding any load for_children optimize_node
grand_children_optimization_sub zero a visited = fails out_of_fuel
grand_children_optimization_sub (suc fuel) a visited = elim (any (λ v. v == a) visited) [
  | true ↦ pure visited
  | false ↦ do
    n ← load a
    seen ← for_children (grand_children_optimization_sub fuel) n.children (a ∷ visited)
    optimize_node a
    pure seen
]

-- `grandChildrenOptimization(node)`
unfoldable pub grand_children_optimization : Option ℕ → Cmd (Unit {0})
unfolding grand_children_optimization_sub
grand_children_optimization none = pure tt
grand_children_optimization (some a) = do
  seen ← grand_children_optimization_sub (suc a) a []
  pure tt
