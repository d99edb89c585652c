-- ===== src/Materialize/Fill.antt =====
-- `fillMaterializes` of src/ir/ir_post_processing.cpp. No entry of its map is null: the one that
-- `pMat[idxCol]` makes is assigned at once. A fetch is made before the node that it is a child of.
pub mod Values
pub mod Finish
pub mod Sound
use db_query_optimizer.Common.{
  ℕ, Bool, true, false, Option, none, some, List, [], ◌∷◌, if◌then◌else◌,
}
use db_query_optimizer.Common.Text.{text_eq}
use db_query_optimizer.Base.{
  Table, TableColumn, table_lt, column_lt, make_column, table_named, type_integer,
}
use db_query_optimizer.Base.Sets.{contains, insert_all, insert}
use db_query_optimizer.Base.Maps.{Map, put, value_at, merge}
use db_query_optimizer.Ir.{IrData, NodeData, Plan, Plans, null, node, nil, cons}
use db_query_optimizer.Ir.FetchView
use db_query_optimizer.Ir.GroupView
use db_query_optimizer.Ir.MaterializeView
use db_query_optimizer.Heap.{
  PlanNode, plan_node, Cmd, pure, fails, null_child, no_input, no_output, ◌>>=◌, ◌>>◌, load, at,
  alloc, report,
}
use db_query_optimizer.Materialize.{filter_col, rename_fetch}

-- `MaterializationData`
pub record MaterializationData : Type 0 where
  pub tables_below : List Table
  pub previous_materializations : Map TableColumn

abbrev pub nothing : MaterializationData
nothing = record { tables_below = []; previous_materializations = [] }

-- The source of a materialization: the column's latest values, or a fetch.
unfoldable pub source_of : TableColumn → Map TableColumn → Cmd ℕ
unfolding value_at FetchView.create alloc
source_of c m = elim (value_at column_lt c m) [
  | some a ↦ pure a
  | none ↦ alloc (plan_node (FetchView.create c false) [])
]

-- A materialization of the column by the child's output.
unfoldable pub materialized : ℕ → TableColumn → Map TableColumn → Cmd (Map TableColumn)
unfolding filter_col source_of MaterializeView.create alloc put
materialized child c m = do
  filter ← filter_col c child
  source ← source_of c m
  a ← alloc (plan_node (MaterializeView.create c filter c false) (source ∷ child ∷ []))
  pure (put column_lt c (some a) m)

-- A column that is needed above a child that outputs a position list.
unfoldable pub materialize_on :
    ℕ → List Table → TableColumn → Map TableColumn → Cmd (Map TableColumn)
unfolding contains materialized
materialize_on child tables c m =
    if contains table_lt c.table tables then materialized child c m else pure m

unfoldable pub materialize_all :
    ℕ → List Table → List TableColumn → Map TableColumn → Cmd (Map TableColumn)
unfolding materialize_on
materialize_all child tables [] m = pure m
materialize_all child tables (c ∷ cs) m = do
  next ← materialize_on child tables c m
  materialize_all child tables cs next

-- The column that a child's values are entered under: for a group without an aggregation, the
-- default-constructed one, whose two names are empty; nothing of it but these is ever read.
unfoldable pub values_key : IrData → Cmd TableColumn
unfolding GroupView.view_if GroupView.agg_result_col at make_column table_named
values_key d = elim (GroupView.view_if d) [
  | some op ↦ elim (GroupView.agg_result_col op d) [
    | some c ↦ pure c
    | none ↦ pure (make_column (table_named []) [] type_integer none)
  ]
  | none ↦ at no_output d.output_cols 0
]

unfoldable pub enter_key : ℕ → IrData → Map TableColumn → Cmd (Map TableColumn)
unfolding values_key put
enter_key a d m = do c ← values_key d; pure (put column_lt c (some a) m)

unfoldable pub enter_outputs : ℕ → IrData → Map TableColumn → Cmd (Map TableColumn)
unfolding enter_key
enter_outputs a d m = if d.outputs_mat_vals then enter_key a d m else pure m

-- The loop's body after the recursion.
unfoldable pub fill_child :
    List TableColumn → ℕ → MaterializationData → MaterializationData → Cmd MaterializationData
unfolding merge load materialize_all enter_outputs insert_all
fill_child needed child below cur = do
  n ← load child
  let merged = merge column_lt cur.previous_materializations below.previous_materializations
  next ←
      if n.ir_data.outputs_pos_list
      then materialize_all child below.tables_below needed merged
      else pure merged
  values ← enter_outputs child n.ir_data next
  pure (record {
    tables_below = insert_all table_lt below.tables_below cur.tables_below;
    previous_materializations = values;
  })

-- A table's node takes the name of each of the parent's inputs on its table in turn, and a copy of
-- it is entered for each.
unfoldable pub copy_fetch :
    List TableColumn → IrData → List ℕ → Map TableColumn → Cmd (IrData × Map TableColumn)
unfolding rename_fetch text_eq at alloc put
copy_fetch [] d children m = pure (d, m)
copy_fetch (f ∷ fs) d children m = do
  i ← at no_input d.input_columns 0
  elim (text_eq f.table.name i.table.name) [
    | true ↦ do
      e ← rename_fetch f.column_name d
      a ← alloc (plan_node e children)
      copy_fetch fs e children (put column_lt f (some a) m)
    | false ↦ copy_fetch fs d children m
  ]

unfoldable pub provide_values : List TableColumn → Map TableColumn → Cmd (List ℕ)
unfolding value_at report
provide_values [] m = pure []
provide_values (c ∷ cs) m = elim (value_at column_lt c m) [
  | some a ↦ do rest ← provide_values cs m; pure (a ∷ rest)
  | none ↦ do report c; provide_values cs m
]

-- The end of a node's visit, from the addresses of its old children.
unfoldable pub finish_fill :
    List TableColumn → IrData → List ℕ → MaterializationData → Cmd (ℕ × MaterializationData)
unfolding FetchView.view_if copy_fetch at insert provide_values alloc
finish_fill input_of_parent d children cur = elim (FetchView.view_if d) [
  | some op ↦ elim op.was_table_base_node [
    | true ↦ do
      (e, m) ← copy_fetch input_of_parent d children cur.previous_materializations
      i ← at no_input e.input_columns 0
      a ← alloc (plan_node e children)
      pure (
        a,
        record {
          tables_below = insert table_lt i.table cur.tables_below;
          previous_materializations = m;
        },
      )
    | false ↦ do a ← alloc (plan_node d children); pure (a, cur)
  ]
  | none ↦ do
    provided ← provide_values d.input_columns cur.previous_materializations
    a ← alloc (plan_node d provided)
    pure (a, cur)
]

unfoldable mutual
  unfolding insert_all fill_child finish_fill

  pub fill_plan : Plan → List TableColumn → List TableColumn → Cmd (ℕ × MaterializationData)
  fill_plan null needed input_of_parent = fails null_child
  fill_plan (node d cs) needed input_of_parent = do
    (children, cur) ←
        fill_plans cs (insert_all column_lt d.ir_data.input_columns needed)
          (insert_all column_lt d.ir_data.input_columns []) nothing
    finish_fill input_of_parent d.ir_data children cur

  pub fill_plans :
      Plans
      → List TableColumn
      → List TableColumn
      → MaterializationData
      → Cmd (List ℕ × MaterializationData)
  fill_plans nil needed inputs cur = pure ([], cur)
  fill_plans (cons p ps) needed inputs cur = do
    (a, below) ← fill_plan p needed inputs
    next ← fill_child needed a below cur
    (children, last) ← fill_plans ps needed inputs next
    pure (a ∷ children, last)

-- `fillMaterializes(node)`: nothing is done for a null root.
unfoldable pub fill_materializes : Plan → Cmd (Option ℕ)
unfolding fill_plan
fill_materializes null = pure none
fill_materializes (node d cs) = do (a, last) ← fill_plan (node d cs) [] []; pure (some a)
