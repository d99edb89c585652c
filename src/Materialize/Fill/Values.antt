-- ===== src/Materialize/Fill/Values.antt =====
-- About the maps of values: they hold addresses of nodes.
use db_query_optimizer.Base.Sets.{insert_all, contains}
use db_query_optimizer.Base.Maps.Held.{merge-Points, value_at-Points, put-Points}
use db_query_optimizer.Materialize.Shared.{
  Any, mat-IsNode, fetch-IsNode, filter_col-Sound, IsAddress, PointsBelow-mono, PointsBelow,
}
use db_query_optimizer.Base.Maps.{merge, value_at, put, Map}
use db_query_optimizer.Base.{table_lt, column_lt, Table, TableColumn}
use db_query_optimizer.Common.{
  ◌≤◌, true, arith, inl, false, Bool, inr, Option-cases, length, ◌<◌, ℕ, [], ◌∷◌, List, some,
  if◌then◌else◌,
}
use db_query_optimizer.Ir.{IrData}
use db_query_optimizer.Ir.FetchView
use db_query_optimizer.Ir.GroupView
use db_query_optimizer.Ir.MaterializeView
use db_query_optimizer.Heap.{no_output, plan_node, Heap, pure}
use db_query_optimizer.Heap.Valid.{
  load_eq, at_eq, get_elem-returns, node_at-IsNode, Grown-trans, alloc-Sound, Grown-refl, sound,
  step, Grown, IsHeap, Sound, Unprovided,
}
use db_query_optimizer.Materialize.Fill.{
  enter_key, materialize_on, source_of, materialize_all, enter_outputs, fill_child, materialized,
  values_key, MaterializationData,
}

-- Every entry of the map is the address of a node.
abbrev pub IsHeld : Map TableColumn → Heap → Type 0
IsHeld m k = PointsBelow (length k.nodes) m

pub IsHeld-Grown : (m : Map TableColumn) (h k : Heap) → Grown h k → IsHeld m h → IsHeld m k
IsHeld-Grown m h k g = PointsBelow-mono (length h.nodes) (length k.nodes) m g.0

pub put-IsHeld :
    (c : TableColumn) (a : ℕ) (m : Map TableColumn) (h : Heap)
    → a < length h.nodes
    → IsHeld m h
    → IsHeld (put column_lt c (some a) m) h
put-IsHeld c a m h = put-Points column_lt (λ b. b < length h.nodes) c a m

pub source_of-Sound :
    (c : TableColumn) (m : Map TableColumn) (h : Heap)
    → IsHeap h
    → IsHeld m h
    → Sound Unprovided h IsAddress (source_of c m h)
unfolding source_of
source_of-Sound c m h valid held = elim (Option-cases (value_at column_lt c m)) [
  | inr (a, e) ↦
      rw (source_of, e)
        (sound valid (Grown-refl h)
          (value_at-Points column_lt (λ b. b < length h.nodes) c m a held e))
  | inl e ↦
      rw (source_of, e)
        (alloc-Sound (plan_node (FetchView.create c false) []) h valid (fetch-IsNode h c false))
]

module _ (child : ℕ) (tables : List Table) where
  pub materialized-Sound :
      (c : TableColumn) (m : Map TableColumn) (h : Heap)
      → IsHeap h
      → child < length h.nodes
      → IsHeld m h
      → Sound Unprovided h IsHeld (materialized child c m h)
  unfolding materialized
  materialized-Sound c m h valid lt held =
      step (filter_col-Sound (λ f ms u. u) c child h valid lt) (λ filter k v g u.
        step (source_of-Sound c m k v (IsHeld-Grown m h k g held)) (λ source l w i al.
          step {f = λ a. pure (put column_lt c (some a) m)}
            (alloc-Sound (plan_node (MaterializeView.create c filter c false) (source ∷ child ∷ []))
              l w (mat-IsNode l c filter c false source child al (omega (arith, g.0, i.0))))
            (λ a x y j new. sound y (Grown-refl x) (
              put-IsHeld c a m x new
                (IsHeld-Grown m h x (Grown-trans h l x (Grown-trans h k l g i) j) held)))))

  pub materialize_all-Sound :
      (cs : List TableColumn) (m : Map TableColumn) (h : Heap)
      → IsHeap h
      → child < length h.nodes
      → IsHeld m h
      → Sound Unprovided h IsHeld (materialize_all child tables cs m h)
  unfolding materialize_all materialize_on
  materialize_all-Sound [] m h valid lt held = sound valid (Grown-refl h) held
  materialize_all-Sound (c ∷ cs) m h valid lt held =
      step {f = materialize_all child tables cs} (one (contains table_lt c.table tables))
        (λ next k v g known. materialize_all-Sound cs next k v (omega (arith, g.0)) known)
    where
      one :
          (b : Bool) → Sound Unprovided h IsHeld ((if b then materialized child c m else pure m) h)
      one true = materialized-Sound c m h valid lt held
      one false = sound valid (Grown-refl h) held

pub values_key-Sound :
    (d : IrData) (h : Heap)
    → IsHeap h
    → 1 ≤ length d.output_cols
    → Sound Unprovided h Any (values_key d h)
unfolding values_key
values_key-Sound d h valid out = elim (Option-cases (GroupView.view_if d)) [
  | inl e ↦
      let (o, f) = get_elem-returns d.output_cols 0 (omega arith) in
      rw (values_key, e)
        (rw (at_eq no_output d.output_cols 0 h o f) (sound valid (Grown-refl h) tt))
  | inr (op, e) ↦ elim (Option-cases (GroupView.agg_result_col op d)) [
    | inl f ↦ rw (values_key, e) (rw f (sound valid (Grown-refl h) tt))
    | inr (c, f) ↦ rw (values_key, e) (rw f (sound valid (Grown-refl h) tt))
  ]
]

pub enter_outputs-Sound :
    (a : ℕ) (d : IrData) (m : Map TableColumn) (h : Heap)
    → IsHeap h
    → a < length h.nodes
    → 1 ≤ length d.output_cols
    → IsHeld m h
    → Sound Unprovided h IsHeld (enter_outputs a d m h)
unfolding enter_outputs enter_key
enter_outputs-Sound a d m h valid lt out held = entered d.outputs_mat_vals
  where
    entered : (b : Bool) → Sound Unprovided h IsHeld ((if b then enter_key a d m else pure m) h)
    entered true =
        step {f = λ c. pure (put column_lt c (some a) m)} (values_key-Sound d h valid out)
          (λ c k v g u.
            sound v (Grown-refl k)
              (put-IsHeld c a m k (omega (arith, g.0)) (IsHeld-Grown m h k g held)))
    entered false = sound valid (Grown-refl h) held

abbrev pub HoldsNodes : MaterializationData → Heap → Type 0
HoldsNodes d k = IsHeld d.previous_materializations k

pub fill_child-Sound :
    (needed : List TableColumn) (child : ℕ) (below cur : MaterializationData) (h : Heap)
    → IsHeap h
    → child < length h.nodes
    → HoldsNodes below h
    → HoldsNodes cur h
    → Sound Unprovided h HoldsNodes (fill_child needed child below cur h)
unfolding fill_child
fill_child-Sound needed child below cur h valid lt kb kc =
    let (n, e, v) = node_at-IsNode h.missing h.nodes child valid lt in
    let merged = merge column_lt cur.previous_materializations below.previous_materializations in
    let held =
      merge-Points column_lt (λ b. b < length h.nodes) cur.previous_materializations
        below.previous_materializations kc kb in
    let tables = insert_all table_lt below.tables_below cur.tables_below in
    rw (fill_child, load_eq child h n e)
      (step (updated n.ir_data.outputs_pos_list merged held) (λ next k w g known.
        step
          {f = λ values.
            pure (record { tables_below = tables; previous_materializations = values })}
          (enter_outputs-Sound child n.ir_data next k w (omega (arith, g.0)) v.outputs known)
          (λ values l x i holds. sound x (Grown-refl l) holds)))
  where
    updated :
        (b : Bool) (m : Map TableColumn)
        → IsHeld m h
        → Sound Unprovided h IsHeld
            ((if b then materialize_all child below.tables_below needed m else pure m) h)
    updated true m held = materialize_all-Sound child below.tables_below needed m h valid lt held
    updated false m held = sound valid (Grown-refl h) held
