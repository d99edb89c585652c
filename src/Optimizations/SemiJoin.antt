-- ===== src/Optimizations/SemiJoin.antt =====
-- `placeSemiJoins` of src/ir_optimizations/ir_optimizations.cpp: a join that only filters becomes a
-- semi-join. `none` is a fault: a column that is read from an empty vector.
pub mod Sound
use db_query_optimizer.Common.{
  Bool, true, false, ◌&&◌, not, Option, none, some, List, [], map, if◌then◌else◌, ◌>>=◌,
}
use db_query_optimizer.Base.{Table, TableColumn, table_lt}
use db_query_optimizer.Base.Sets.{contains, insert_all}
use db_query_optimizer.Catalog.{is_unique}
use db_query_optimizer.Ir.{IrData, NodeData, Plan, Plans, null, node, nil, cons}
use db_query_optimizer.Ir.JoinView
use db_query_optimizer.Ir.SemiJoinView

-- `tablesThisNode`
unfoldable pub tables_this_node : IrData → List Table
tables_this_node d = insert_all table_lt (map (λ c. c.table) d.input_columns) []

-- `innerTableNeededLater ? joinV->outer() : joinV->inner()`
unfoldable pub col_to_discard : Bool → TableColumn → TableColumn → TableColumn
col_to_discard inner_needed inner outer = if inner_needed then outer else inner

-- The body of the `if` on a join, between its columns.
unfoldable pub convert_join : Bool → Bool → TableColumn → TableColumn → IrData → Option IrData
unfolding col_to_discard
convert_join inner_needed outer_needed inner outer d =
    if inner_needed && outer_needed
    then some d
    else if is_unique (col_to_discard inner_needed inner outer).table.name
        (col_to_discard inner_needed inner outer).column_name
    then (do
      semi_join ← SemiJoinView.of_join d
      if inner_needed && not outer_needed
          then SemiJoinView.swap_sides semi_join
          else some semi_join)
    else some d

unfoldable pub rewrite_join : List Table → IrData → Option IrData
rewrite_join tables_needed_later d = elim (JoinView.view_if d) [
  | none ↦ some d
  | some _ ↦ do
    inner ← JoinView.inner d
    outer ← JoinView.outer d
    convert_join (contains table_lt inner.table tables_needed_later)
        (contains table_lt outer.table tables_needed_later) inner outer d
]

-- `tablesNeededLater` for the children.
unfoldable pub needed_below : IrData → List Table → List Table
needed_below d tables_needed_later = insert_all table_lt (tables_this_node d) tables_needed_later

unfoldable mutual
  pub place_semi_joins : Plan → List Table → Option Plan
  place_semi_joins null needed = some null
  place_semi_joins (node d cs) needed = do
    ir ← rewrite_join needed d.ir_data
    children ← place_in_children cs (needed_below d.ir_data needed)
    some (node (record d { ir_data = ir }) children)

  pub place_in_children : Plans → List Table → Option Plans
  place_in_children nil needed = some nil
  place_in_children (cons p ps) needed = do
    first ← place_semi_joins p needed
    rest ← place_in_children ps needed
    some (cons first rest)
