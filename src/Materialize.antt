-- ===== src/Materialize.antt =====
-- The passes that place materializations, src/ir/ir_post_processing.cpp and src/ir_optimizations/
-- ir_optimizations.cpp: what they share. They read a plan that is still a tree and leave nodes on the
-- heap that share children. A node gets its address when its own visit ends: no pass reads a node
-- before that, and none reads the old tree again.
pub mod Late
pub mod First
pub mod Fill
pub mod GrandChildren
pub mod Shared
pub mod Fetches
pub mod Whole
use db_query_optimizer.Common.{
  ℕ, Bool, true, false, Option, none, some, List, [], ◌∷◌, if◌then◌else◌,
}
use db_query_optimizer.Common.Text.{Text, text_eq}
use db_query_optimizer.Base.{Table, TableColumn, table_eq, column_lt}
use db_query_optimizer.Base.Maps.{Map, put}
use db_query_optimizer.Ir.{IrData}
use db_query_optimizer.Ir.FetchView
use db_query_optimizer.Ir.GroupView
use db_query_optimizer.Heap.{
  PlanNode, Cmd, pure, fails, no_input, no_output, no_list_column, ◌>>=◌, load, at,
}
use db_query_optimizer.Heap.FilterCol.{det_filter_col_idx}

-- `child->irData.outputCols[idx]`
unfoldable pub output_at : ℕ → ℕ → Cmd TableColumn
unfolding load at
output_at child idx = do n ← load child; at no_output n.ir_data.output_cols idx

-- `child->irData.outputCols[detFilterColIdx(col, child)]`
unfoldable pub filter_col : TableColumn → ℕ → Cmd TableColumn
unfolding det_filter_col_idx output_at
filter_col c child = do idx ← det_filter_col_idx c child; output_at child idx

-- `*(outputCols | filter(hasTable)).begin()`: without such a column, the end of the vector is read.
unfoldable pub first_of_table : TableColumn → List TableColumn → Cmd TableColumn
unfolding table_eq
first_of_table c [] = fails no_list_column
first_of_table c (o ∷ os) =
    let rest = first_of_table c os in if table_eq o.table c.table then pure o else rest

unfoldable pub list_col : TableColumn → ℕ → Cmd TableColumn
unfolding first_of_table load
list_col c a = do n ← load a; first_of_table c n.ir_data.output_cols

-- The entry for a child that outputs materialized values: a group's is the result of its
-- aggregation, if it has one.
unfoldable pub enter_child : ℕ → IrData → Map TableColumn → Cmd (Map TableColumn)
unfolding GroupView.view_if GroupView.agg_result_col put at
enter_child a d m = elim (GroupView.view_if d) [
  | some op ↦ elim (GroupView.agg_result_col op d) [
    | some c ↦ pure (put column_lt c (some a) m)
    | none ↦ pure m
  ]
  | none ↦ do c ← at no_output d.output_cols 0; pure (put column_lt c (some a) m)
]

unfoldable pub enter_values : ℕ → IrData → Map TableColumn → Cmd (Map TableColumn)
unfolding enter_child
enter_values a d m = if d.outputs_mat_vals then enter_child a d m else pure m

-- `fetchV->inputCol().columnName = …; fetchV->outputCol().columnName = …`
unfoldable pub rename_fetch : Text → IrData → Cmd IrData
rename_fetch name d = elim d.input_columns [
  | [] ↦ fails no_input
  | i ∷ is ↦ elim d.output_cols [
    | [] ↦ fails no_output
    | o ∷ os ↦ pure (record d {
      input_columns = record i { column_name = name } ∷ is;
      output_cols = record o { column_name = name } ∷ os;
    })
  ]
]

-- The loop that gives a table's node the name of the parent's input on that table.
unfoldable pub name_fetch : List TableColumn → IrData → Cmd IrData
unfolding rename_fetch text_eq at
name_fetch [] d = pure d
name_fetch (f ∷ fs) d = do
  i ← at no_input d.input_columns 0
  elim (text_eq f.table.name i.table.name) [
    | true ↦ do e ← rename_fetch f.column_name d; name_fetch fs e
    | false ↦ name_fetch fs d
  ]
