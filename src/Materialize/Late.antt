-- ===== src/Materialize/Late.antt =====
-- `putLateMaterializationV2` and `putLateMaterializationHybrid` of src/ir_optimizations/
-- ir_optimizations.cpp. The two differ in one condition, the parameter of the section.
pub mod Steps
pub mod Sound
pub mod Provides
use db_query_optimizer.Common.{
  ℕ, zero, suc, Bool, true, false, ◌&&◌, ◌||◌, Option, none, some, List, [], ◌∷◌, ◌++◌, length,
  keep_if, ◌==◌, if◌then◌else◌,
}
use db_query_optimizer.Common.Text.{Text, text_eq, bytes}
use db_query_optimizer.Base.{Table, TableColumn, table_eq, table_lt, column_lt}
use db_query_optimizer.Base.Sets.{contains, insert_all, insert}
use db_query_optimizer.Base.Maps.{Map, put, value_at, touch, merge}
use db_query_optimizer.Ir.{IrData, NodeData, Plan, Plans, null, node, nil, cons}
use db_query_optimizer.Ir.FetchView
use db_query_optimizer.Ir.MaterializeView
use db_query_optimizer.Heap.{
  PlanNode, plan_node, Cmd, pure, fails, null_child, no_input, ◌>>=◌, ◌>>◌, load, at, alloc, report,
}
use db_query_optimizer.Materialize.{filter_col, list_col, enter_values, name_fetch}

-- `LateMaterializationData`
pub record LateMaterializationData : Type 0 where
  pub tables_below : List Table
  pub previous_positionlists : Map Table
  pub previous_material_values : Map TableColumn

abbrev pub no_data : LateMaterializationData
no_data = record { tables_below = []; previous_positionlists = []; previous_material_values = [] }

-- Is the column a result of an aggregation or of a map?
unfoldable pub is_agg_or_map : TableColumn → Bool
unfolding text_eq
is_agg_or_map c = text_eq c.table.name (bytes "AGG") || text_eq c.table.name (bytes "MAP")

-- Is the column the only one of its table that is needed later?
unfoldable pub is_only_column : List TableColumn → TableColumn → Bool
unfolding keep_if table_eq
is_only_column needed c = length (keep_if (λ d. table_eq d.table c.table) needed) == 1

-- Values that are updated by the child's output.
unfoldable pub update_values : TableColumn → ℕ → ℕ → Cmd ℕ
unfolding filter_col MaterializeView.create alloc
update_values col prev child = do
  filter ← filter_col col child
  alloc (plan_node (MaterializeView.create col filter col false) (prev ∷ child ∷ []))

-- A position list that is updated by the child's output.
unfoldable pub update_positions : TableColumn → ℕ → ℕ → Cmd ℕ
unfolding filter_col list_col MaterializeView.create alloc
update_positions col prev child = do
  filter ← filter_col col child
  prev_col ← list_col col prev
  alloc (plan_node (MaterializeView.create prev_col filter col true) (prev ∷ child ∷ []))

-- The position list of the column's table after a child that outputs one.
unfoldable pub update_list :
    ℕ
    → LateMaterializationData
    → TableColumn
    → LateMaterializationData
    → Cmd LateMaterializationData
unfolding contains value_at put update_positions
update_list child below col cur =
    if contains table_lt col.table below.tables_below
    then elim (value_at table_lt col.table cur.previous_positionlists) [
      | some updated ↦ pure cur
      | none ↦ elim (value_at table_lt col.table below.previous_positionlists) [
        | none ↦ pure (record cur {
          previous_positionlists = put table_lt col.table (some child) cur.previous_positionlists;
        })
        | some prev ↦ do
          a ← update_positions col prev child
          pure (record cur {
            previous_positionlists = put table_lt col.table (some a) cur.previous_positionlists;
          })
      ]
    ]
    else pure cur

-- The input column of a node that has been found no values for: a fetch of it is materialized on the
-- latest position list of its table.
unfoldable pub fetch_on_list : TableColumn → ℕ → Cmd ℕ
unfolding FetchView.create MaterializeView.create list_col alloc
fetch_on_list col latest = do
  fetch ← alloc (plan_node (FetchView.create col false) [])
  prev_col ← list_col col latest
  alloc (plan_node (MaterializeView.create col prev_col col false) (fetch ∷ latest ∷ []))

-- The new children of a node, one for each of its input columns that is provided.
unfoldable pub provide :
    List TableColumn → LateMaterializationData → Cmd (List ℕ × LateMaterializationData)
unfolding value_at touch put fetch_on_list report
provide [] cur = pure ([], cur)
provide (c ∷ cs) cur = elim (value_at column_lt c cur.previous_material_values) [
  | some m ↦ do (children, last) ← provide cs cur; pure (m ∷ children, last)
  | none ↦ elim (value_at table_lt c.table cur.previous_positionlists) [
    | some latest ↦ do
      a ← fetch_on_list c latest
      (children, last) ← provide cs (record cur {
        previous_material_values = put column_lt c (some a) cur.previous_material_values;
      })
      pure (a ∷ children, last)
    | none ↦ do
      report c
      provide cs (record cur {
        previous_material_values = touch column_lt c cur.previous_material_values;
        previous_positionlists = touch table_lt c.table cur.previous_positionlists;
      })
  ]
]

-- The end of a node's visit, from the addresses of its old children: a node that is no fetch gets
-- new ones, and a table's node the name of its column.
unfoldable pub finish_late :
    List TableColumn → IrData → List ℕ → LateMaterializationData → Cmd (ℕ × LateMaterializationData)
unfolding FetchView.view_if name_fetch at insert provide alloc
finish_late input_of_parent d children cur = elim (FetchView.view_if d) [
  | some op ↦ elim op.was_table_base_node [
    | true ↦ do
      e ← name_fetch input_of_parent d
      i ← at no_input e.input_columns 0
      a ← alloc (plan_node e children)
      pure (a, record cur { tables_below = insert table_lt i.table cur.tables_below })
    | false ↦ do a ← alloc (plan_node d children); pure (a, cur)
  ]
  | none ↦ do
    (provided, last) ← provide d.input_columns cur
    a ← alloc (plan_node d provided)
    pure (a, last)
]

module _ (updates : List TableColumn → TableColumn → Bool) where
  -- A column that is needed later, at a child that outputs a position list: its values are updated, or
  -- else the position list of its table.
  unfoldable pub later_col :
      List TableColumn
      → ℕ
      → LateMaterializationData
      → TableColumn
      → LateMaterializationData
      → Cmd LateMaterializationData
  unfolding value_at put update_values update_list
  later_col needed child below col cur =
      let in_lists = update_list child below col cur in
      elim (value_at column_lt col below.previous_material_values) [
        | none ↦ in_lists
        | some prev ↦ elim (updates needed col) [
          | false ↦ in_lists
          | true ↦ do
            a ← update_values col prev child
            pure (record cur {
              previous_material_values = put column_lt col (some a) cur.previous_material_values;
            })
        ]
      ]

  unfoldable pub later_cols :
      List TableColumn
      → ℕ
      → LateMaterializationData
      → List TableColumn
      → LateMaterializationData
      → Cmd LateMaterializationData
  unfolding later_col
  later_cols needed child below [] cur = pure cur
  later_cols needed child below (c ∷ cs) cur = do
    next ← later_col needed child below c cur
    later_cols needed child below cs next

  -- The loop's body after the recursion. A child without a position list passes on the lists below
  -- it; `prevMat.merge(prevMat)` merges a map with itself, so its values are dropped.
  unfoldable pub take_child :
      List TableColumn
      → ℕ
      → LateMaterializationData
      → LateMaterializationData
      → Cmd LateMaterializationData
  unfolding load merge later_cols enter_values insert_all
  take_child needed child below cur = do
    n ← load child
    next ←
        if n.ir_data.outputs_pos_list
        then later_cols needed child below needed cur
        else pure (record cur {
          previous_positionlists =
              merge table_lt cur.previous_positionlists below.previous_positionlists;
        })
    values ← enter_values child n.ir_data next.previous_material_values
    pure (record next {
      previous_material_values = values;
      tables_below = insert_all table_lt below.tables_below cur.tables_below;
    })

  unfoldable mutual
    unfolding insert_all take_child finish_late

    pub late_plan : Plan → List TableColumn → List TableColumn → Cmd (ℕ × LateMaterializationData)
    late_plan null needed input_of_parent = fails null_child
    late_plan (node d cs) needed input_of_parent = do
      (children, cur) ←
          late_plans cs (insert_all column_lt d.ir_data.input_columns needed)
            d.ir_data.input_columns no_data
      finish_late input_of_parent d.ir_data children cur

    pub late_plans :
        Plans
        → List TableColumn
        → List TableColumn
        → LateMaterializationData
        → Cmd (List ℕ × LateMaterializationData)
    late_plans nil needed inputs cur = pure ([], cur)
    late_plans (cons p ps) needed inputs cur = do
      (a, below) ← late_plan p needed inputs
      next ← take_child needed a below cur
      (children, last) ← late_plans ps needed inputs next
      pure (a ∷ children, last)

-- `putLateMaterializationV2(node)`: nothing is done for a null root.
unfoldable pub put_late_materialization_v2 : Plan → Cmd (Option ℕ)
unfolding late_plan is_agg_or_map
put_late_materialization_v2 null = pure none
put_late_materialization_v2 (node d cs) = do
  (a, last) ← late_plan (λ needed c. is_agg_or_map c) (node d cs) [] []
  pure (some a)

-- `putLateMaterializationHybrid(node)`
unfoldable pub put_late_materialization_hybrid : Plan → Cmd (Option ℕ)
unfolding late_plan is_agg_or_map is_only_column
put_late_materialization_hybrid null = pure none
put_late_materialization_hybrid (node d cs) = do
  (a, last) ← late_plan (λ needed c. is_agg_or_map c || is_only_column needed c) (node d cs) [] []
  pure (some a)
