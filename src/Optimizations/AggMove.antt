-- ===== src/Optimizations/AggMove.antt =====
-- `moveAggIntoGroup` of src/ir_optimizations/ir_optimizations.cpp: a group's only aggregation, if
-- it is a sum, moves into the group. `none` is a fault: a column or a child that is not there. The
-- source's children are never null: a null one is passed over here.
pub mod Conserved
pub mod Count
pub mod Pull
use db_query_optimizer.Common.{
  ℕ, ◌+◌, Bool, true, false, ◌&&◌, Option, none, some, ◌==◌, if◌then◌else◌, ◌>>=◌,
}
use db_query_optimizer.Base.{TableColumn, AggFunc, agg_sum}
use db_query_optimizer.Ir.{
  IrData, OpInfo, NodeData, Plan, Plans, null, node, nil, cons, agg_op, group_op, select_op,
}
use db_query_optimizer.Ir.AggView
use db_query_optimizer.Ir.GroupView

-- `aggFunc() == AggFunc::AGG_SUM`
unfoldable pub is_sum : AggFunc → Bool
is_sum agg_sum = true
is_sum _ = false

unfoldable pub first_child : Plans → Option Plan
first_child nil = none
first_child (cons p ps) = some p

-- `groupV.setAgg(...)`, where the view reads the group's state anew.
unfoldable pub set_agg_of : IrData → TableColumn → TableColumn → IrData
set_agg_of d agg_col agg_result_col = elim (GroupView.view_if d) [
  | none ↦ d
  | some op ↦ GroupView.set_agg op agg_col agg_result_col d
]

-- The loop over the children of a group.
unfoldable pub pull_sums : IrData → Plans → Option (IrData × Plans)
pull_sums d nil = some (d, nil)
pull_sums d (cons null ps) = do (d', rest) ← pull_sums d ps; some (d', cons null rest)
pull_sums d (cons (node c cs) ps) = elim (AggView.view_if c.ir_data) [
  | none ↦ do (d', rest) ← pull_sums d ps; some (d', cons (node c cs) rest)
  | some agg ↦
      if is_sum agg.agg_func
      then (do
        col ← AggView.col_to_agg c.ir_data
        result ← AggView.agg_result_col c.ir_data
        child ← first_child cs
        (d', rest) ← pull_sums (set_agg_of d col result) ps
        some (d', cons child rest))
      else (do (d', rest) ← pull_sums d ps; some (d', cons (node c cs) rest))
]

-- The node itself, after its children, of which `agg_count` aggregations were counted.
unfoldable pub finish_node : ℕ → NodeData → Plans → Option (ℕ × Plan)
finish_node agg_count d cs = elim d.ir_data.op_info [
  | agg_op _ ↦ some (agg_count + 1, node d cs)
  | group_op _ ↦
      if agg_count == 1
      then (do
        (ir, rest) ← pull_sums d.ir_data cs
        some (agg_count, node (record d { ir_data = ir }) rest))
      else some (agg_count, node d cs)
  | select_op _ ↦ some (0, node d cs)
  | _ ↦ some (agg_count, node d cs)
]

unfoldable mutual
  pub move_agg_into_group : Plan → Option (ℕ × Plan)
  move_agg_into_group null = some (0, null)
  move_agg_into_group (node d cs) = do
    (agg_count, children) ← move_in_children cs
    finish_node agg_count d children

  pub move_in_children : Plans → Option (ℕ × Plans)
  move_in_children nil = some (0, nil)
  move_in_children (cons p ps) = do
    (n, q) ← move_agg_into_group p
    (m, qs) ← move_in_children ps
    some (n + m, cons q qs)
