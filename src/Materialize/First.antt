-- ===== src/Materialize/First.antt =====
-- `putLateMaterialization` of src/ir_optimizations/ir_optimizations.cpp, the first version of the late
-- materialization. Its loop over the columns is the later versions', with no values to update.
pub mod Sound
pub mod Returns
use db_query_optimizer.Common.{
  ℕ, Bool, true, false, Option, none, some, List, [], ◌∷◌, if◌then◌else◌,
}
use db_query_optimizer.Base.{Table, TableColumn, table_lt, column_lt}
use db_query_optimizer.Base.Sets.{insert_all}
use db_query_optimizer.Base.Maps.{Map, put, value_at, touch, merge}
use db_query_optimizer.Ir.{IrData, NodeData, Plan, Plans, null, node, nil, cons}
use db_query_optimizer.Ir.FetchView
use db_query_optimizer.Ir.MaterializeView
use db_query_optimizer.Heap.{
  plan_node, Cmd, pure, fails, null_child, no_output, ◌>>=◌, ◌>>◌, load, at, alloc, report,
}
use db_query_optimizer.Materialize.{enter_values}
use db_query_optimizer.Materialize.Late.{LateMaterializationData, no_data, later_cols, finish_late}

-- `curPos`, `matChildren` and `allTablesBelow`; and `pPos` and `allPrevMat`.
pub record Gathered : Type 0 where
  pub cur : LateMaterializationData
  pub prev : LateMaterializationData

-- `pPos.merge(…); allPrevMat.merge(…);`
unfoldable pub merged : LateMaterializationData → LateMaterializationData → LateMaterializationData
unfolding merge
merged prev below = record {
  tables_below = below.tables_below;
  previous_positionlists = merge table_lt prev.previous_positionlists below.previous_positionlists;
  previous_material_values =
      merge column_lt prev.previous_material_values below.previous_material_values;
}

-- The loop's body after the recursion. Of what is below only the position lists are read.
unfoldable pub gather_child :
    List TableColumn → ℕ → LateMaterializationData → Gathered → Cmd Gathered
unfolding merged load later_cols enter_values insert_all
gather_child needed child below g = do
  n ← load child
  next ←
      if n.ir_data.outputs_pos_list
      then later_cols (λ all c. false) needed child (merged g.prev below) needed g.cur
      else pure g.cur
  values ← enter_values child n.ir_data next.previous_material_values
  pure (record {
    cur = record {
      tables_below = insert_all table_lt below.tables_below g.cur.tables_below;
      previous_positionlists = next.previous_positionlists;
      previous_material_values = values;
    };
    prev = merged g.prev below;
  })

-- `for (auto const& [k, v] : n) m[k] = v;`
unfoldable pub put_all : {K : Type 0} → (K → K → Bool) → Map K → Map K → Map K
unfolding put
put_all lt [] m = m
put_all lt ((k, v) ∷ n) m = put_all lt n (put lt k v m)

-- What the node returns, before its own columns are looked up.
unfoldable pub first_registry : Gathered → LateMaterializationData
unfolding put_all
first_registry g = record {
  tables_below = g.cur.tables_below;
  previous_positionlists =
      put_all table_lt g.cur.previous_positionlists g.prev.previous_positionlists;
  previous_material_values =
      put_all column_lt g.cur.previous_material_values g.prev.previous_material_values;
}

-- A materialization of a fetch on the latest position list. By the default argument of `create` it
-- is one of a position list.
unfoldable pub materialize_first : TableColumn → ℕ → ℕ → Cmd ℕ
unfolding MaterializeView.create load at alloc
materialize_first col latest fetch = do
  n ← load latest
  filter ← at no_output n.ir_data.output_cols 0
  alloc (plan_node (MaterializeView.create col filter col true) (fetch ∷ latest ∷ []))

unfoldable pub fetch_on_first : TableColumn → ℕ → Cmd ℕ
unfolding FetchView.create materialize_first alloc
fetch_on_first col latest = do
  fetch ← alloc (plan_node (FetchView.create col false) [])
  materialize_first col latest fetch

-- The new children of a node, from the children's values, the position lists, and the values of
-- before.
unfoldable pub provide_first :
    List TableColumn
    → Map TableColumn
    → LateMaterializationData
    → Cmd (List ℕ × LateMaterializationData)
unfolding value_at touch fetch_on_first report
provide_first [] values known = pure ([], known)
provide_first (c ∷ cs) values known = elim (value_at column_lt c values) [
  | some a ↦ do (children, last) ← provide_first cs values known; pure (a ∷ children, last)
  | none ↦ elim (value_at table_lt c.table known.previous_positionlists) [
    | some latest ↦ do
      a ← fetch_on_first c latest
      (children, last) ← provide_first cs values known
      pure (a ∷ children, last)
    | none ↦ elim (value_at column_lt c known.previous_material_values) [
      | some a ↦ do
        (children, last) ← provide_first cs values (record known {
          previous_positionlists = touch table_lt c.table known.previous_positionlists;
        })
        pure (a ∷ children, last)
      | none ↦ do
        report c
        provide_first cs values (record known {
          previous_material_values = touch column_lt c known.previous_material_values;
          previous_positionlists = touch table_lt c.table known.previous_positionlists;
        })
    ]
  ]
]

-- The end of a node's visit; for a fetch it is the later versions'.
unfoldable pub finish_first :
    List TableColumn → IrData → List ℕ → Gathered → Cmd (ℕ × LateMaterializationData)
unfolding FetchView.view_if first_registry finish_late provide_first alloc
finish_first input_of_parent d children g = elim (FetchView.view_if d) [
  | some op ↦ finish_late input_of_parent d children (first_registry g)
  | none ↦ do
    (provided, last) ←
        provide_first d.input_columns g.cur.previous_material_values (first_registry g)
    a ← alloc (plan_node d provided)
    pure (a, last)
]

unfoldable mutual
  unfolding insert_all gather_child finish_first

  pub first_plan : Plan → List TableColumn → List TableColumn → Cmd (ℕ × LateMaterializationData)
  first_plan null needed input_of_parent = fails null_child
  first_plan (node d cs) needed input_of_parent = do
    (children, g) ←
        first_plans cs (insert_all column_lt d.ir_data.input_columns needed)
          (insert_all column_lt d.ir_data.input_columns [])
          (record { cur = no_data; prev = no_data })
    finish_first input_of_parent d.ir_data children g

  pub first_plans : Plans → List TableColumn → List TableColumn → Gathered → Cmd (List ℕ × Gathered)
  first_plans nil needed inputs g = pure ([], g)
  first_plans (cons p ps) needed inputs g = do
    (a, below) ← first_plan p needed inputs
    next ← gather_child needed a below g
    (children, last) ← first_plans ps needed inputs next
    pure (a ∷ children, last)

-- `putLateMaterialization(node)`
unfoldable pub put_late_materialization : Plan → Cmd (Option ℕ)
unfolding first_plan
put_late_materialization null = pure none
put_late_materialization (node d cs) = do (a, last) ← first_plan (node d cs) [] []; pure (some a)
