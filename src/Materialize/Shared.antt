-- ===== src/Materialize/Shared.antt =====
-- About the pieces that the passes share: they read what is there and make valid nodes.
use db_query_optimizer.Common.{
  subst, sym, ap, ◌∙◌, ℕ, ◌≤◌, ◌<◌, Bool, true, false, some, List, [], ◌∷◌, length, ◌≡◌, arith,
  refl, Bool-cases, Option-cases, inl, inr,
}
use db_query_optimizer.Base.{TableColumn, table_eq, column_lt}
use db_query_optimizer.Base.Maps.{Map, Points, put}
use db_query_optimizer.Base.Maps.Held.{Points-mono, put-Points}
use db_query_optimizer.Ir.{IrData}
use db_query_optimizer.Ir.MaterializeView
use db_query_optimizer.Ir.FetchView
use db_query_optimizer.Ir.GroupView
use db_query_optimizer.Heap.{
  no_input, ◌>>=◌, fault, chain, no_output, Run, Cmd, PlanNode, plan_node, Heap, Fault, node_at, ok,
}
use db_query_optimizer.Heap.Valid.{
  Grown, Grown-refl, weaken, stops, returns, IsHeap, IsNode, node_at-IsNode, Unprovided, ListFault,
  end_read, Sound, sound, unsound, step, load_eq, at_eq, get_elem-returns, wired_always,
}
use db_query_optimizer.Heap.FilterCol.Found.{Finds, det_filter_col_idx-Finds}
use db_query_optimizer.Materialize.{
  text_eq, output_at, det_filter_col_idx, Text, filter_col, first_of_table, list_col, enter_child,
  enter_values, rename_fetch, name_fetch,
}

-- Nothing is said of the result.
abbrev pub Any : {A : Type 0} → A → Heap → Type 0
Any a k = Unit

-- The address of a node.
abbrev pub IsAddress : ℕ → Heap → Type 0
IsAddress a k = a < length k.nodes

-- Every pointer of the map is the address of a node.
abbrev pub PointsBelow : {K : Type 0} → ℕ → Map K → Type 0
PointsBelow n = Points (λ a. a < n)

pub PointsBelow-mono :
    {K : Type 0} (n m : ℕ) (p : Map K) → n ≤ m → PointsBelow n p → PointsBelow m p
PointsBelow-mono n m p le = Points-mono (λ a. a < n) (λ a. a < m) p (λ a h. omega arith)

pub mat-IsNode :
    (h : Heap) (idx filter out : TableColumn) (list : Bool) (l r : ℕ)
    → l < length h.nodes
    → r < length h.nodes
    → IsNode h.missing
        (length h.nodes)
        (plan_node (MaterializeView.create idx filter out list) (l ∷ r ∷ []))
unfolding MaterializeView.create
mat-IsNode h idx filter out list l r lo ro = record {
  shape = (refl, refl);
  outputs = omega arith;
  older = (lo, (ro, tt));
  wired =
      wired_always h.missing (plan_node (MaterializeView.create idx filter out list) (l ∷ r ∷ []))
        refl;
}

pub fetch-IsNode :
    (h : Heap) (col : TableColumn) (base : Bool)
    → IsNode h.missing (length h.nodes) (plan_node (FetchView.create col base) [])
unfolding FetchView.create
fetch-IsNode h col base = record {
  shape = (refl, refl);
  outputs = omega arith;
  older = tt;
  wired = wired_always h.missing (plan_node (FetchView.create col base) []) tt;
}

output_at-Sound :
    {F : Fault → List TableColumn → Type 0} (a i : ℕ) (h : Heap) (n : PlanNode)
    → IsHeap h
    → node_at h.nodes a ≡ some n
    → i < length n.ir_data.output_cols
    → Sound F h Any (output_at a i h)
unfolding output_at
output_at-Sound a i h n valid e lt =
    let (o, f) = get_elem-returns n.ir_data.output_cols i lt in
    rw (output_at, load_eq a h n e)
      (rw (at_eq no_output n.ir_data.output_cols i h o f) (sound valid (Grown-refl h) tt))

found-Sound :
    {F : Fault → List TableColumn → Type 0}
    → ((f : Fault) (m : List TableColumn) → Unprovided f m → F f m)
    → (a : ℕ) (h : Heap) (n : PlanNode) → IsHeap h
    → node_at h.nodes a ≡ some n
    → (r : Run ℕ) → Finds h n r
    → Sound F h Any (chain r (output_at a))
found-Sound {F = F} includes a h n valid e (ok i k) (returns (lt, _, same)) =
    subst (λ k. Sound F h Any (output_at a i k)) (sym same) (output_at-Sound a i h n valid e lt)
found-Sound {F = F} includes a h n valid e (fault f k) (stops (u, same)) =
    unsound (subst (λ k. F f k.missing) (sym same) (includes f h.missing u))

pub filter_col-Sound :
    {F : Fault → List TableColumn → Type 0}
    → ((f : Fault) (m : List TableColumn) → Unprovided f m → F f m)
    → (c : TableColumn) (a : ℕ) (h : Heap) → IsHeap h
    → a < length h.nodes
    → Sound F h Any (filter_col c a h)
unfolding filter_col
filter_col-Sound includes c a h valid lt =
    let (n, e, v) = node_at-IsNode h.missing h.nodes a valid lt in
    found-Sound includes a h n valid e (det_filter_col_idx c a h)
      (det_filter_col_idx-Finds c a h n valid lt e v)

first_of_table-Sound :
    (c : TableColumn) (os : List TableColumn) (h : Heap)
    → IsHeap h
    → Sound ListFault h Any (first_of_table c os h)
unfolding first_of_table
first_of_table-Sound c [] h valid = unsound end_read
first_of_table-Sound c (o ∷ os) h valid = elim (Bool-cases (table_eq o.table c.table)) [
  | inl t ↦ rw (first_of_table, t) (sound valid (Grown-refl h) tt)
  | inr t ↦ rw (first_of_table, t) (first_of_table-Sound c os h valid)
]

pub list_col-Sound :
    (c : TableColumn) (a : ℕ) (h : Heap)
    → IsHeap h
    → a < length h.nodes
    → Sound ListFault h Any (list_col c a h)
unfolding list_col
list_col-Sound c a h valid lt =
    let (n, e, v) = node_at-IsNode h.missing h.nodes a valid lt in
    rw (list_col, load_eq a h n e) (first_of_table-Sound c n.ir_data.output_cols h valid)

abbrev pub Entered : Map TableColumn → Heap → Type 0
Entered r k = PointsBelow (length k.nodes) r

-- A child's entry is the child's address.
module _ {F : Fault → List TableColumn → Type 0} (a : ℕ) (d : IrData) (m : Map TableColumn)
    (h : Heap) (valid : IsHeap h) (lt : a < length h.nodes) (out : 1 ≤ length d.output_cols)
    (below : PointsBelow (length h.nodes) m) where
  entered : (c : TableColumn) → Sound F h Entered (ok (put column_lt c (some a) m) h)
  entered c =
      sound valid (Grown-refl h) (put-Points column_lt (λ b. b < length h.nodes) c a m lt below)

  enter_child-Sound : Sound F h Entered (enter_child a d m h)
  unfolding enter_child
  enter_child-Sound = elim (Option-cases (GroupView.view_if d)) [
    | inl e ↦
        let (o, f) = get_elem-returns d.output_cols 0 (omega arith) in
        rw (enter_child, e) (rw (at_eq no_output d.output_cols 0 h o f) (entered o))
    | inr (op, e) ↦ elim (Option-cases (GroupView.agg_result_col op d)) [
      | inl f ↦ rw (enter_child, e) (rw f (sound valid (Grown-refl h) below))
      | inr (c, f) ↦ rw (enter_child, e) (rw f (entered c))
    ]
  ]

  pub enter_values-Sound : Sound F h Entered (enter_values a d m h)
  unfolding enter_values
  enter_values-Sound = elim (Bool-cases d.outputs_mat_vals) [
    | inl e ↦ rw (enter_values, e) enter_child-Sound
    | inr e ↦ rw (enter_values, e) (sound valid (Grown-refl h) below)
  ]

-- Naming a fetch's column keeps the operator and the numbers of columns.
pub record IsRenamed (d e : IrData) : Type 0 where
  pub op : e.op_info ≡ d.op_info
  pub inputs : length e.input_columns ≡ length d.input_columns
  pub outputs : length e.output_cols ≡ length d.output_cols

pub IsRenamed-trans : (d e f : IrData) → IsRenamed d e → IsRenamed e f → IsRenamed d f
IsRenamed-trans d e f h k = record {
  op = k.op ∙ h.op;
  inputs = k.inputs ∙ h.inputs;
  outputs = k.outputs ∙ h.outputs;
}

pub rename_fetch-Sound :
    {F : Fault → List TableColumn → Type 0} (name : Text) (d : IrData) (h : Heap)
    → IsHeap h
    → 1 ≤ length d.input_columns
    → 1 ≤ length d.output_cols
    → Sound F h (λ e k. IsRenamed d e) (rename_fetch name d h)
unfolding rename_fetch
rename_fetch-Sound {F = F} name d h valid ins outs =
    by_columns d.input_columns d.output_cols refl refl
  where
    by_columns :
        (is os : List TableColumn)
        → d.input_columns ≡ is
        → d.output_cols ≡ os
        → Sound F h (λ e k. IsRenamed d e) (rename_fetch name d h)
    by_columns [] os e f = absurd (omega (arith, ap length e))
    by_columns (i ∷ is) [] e f = absurd (omega (arith, ap length f))
    by_columns (i ∷ is) (o ∷ os) e f =
        rw (rename_fetch, e, f)
          (sound valid (Grown-refl h) (record { op = refl; inputs = refl; outputs = refl }))

pub name_fetch-Sound :
    {F : Fault → List TableColumn → Type 0} (fs : List TableColumn) (d : IrData) (h : Heap)
    → IsHeap h
    → 1 ≤ length d.input_columns
    → 1 ≤ length d.output_cols
    → Sound F h (λ e k. IsRenamed d e) (name_fetch fs d h)
unfolding name_fetch
name_fetch-Sound [] d h valid ins outs =
    sound valid (Grown-refl h) (record { op = refl; inputs = refl; outputs = refl })
name_fetch-Sound {F = F} (f ∷ fs) d h valid ins outs =
    let (i, e) = get_elem-returns d.input_columns 0 (omega arith) in
    rw (name_fetch, at_eq no_input d.input_columns 0 h i e)
      (matched i (text_eq f.table.name i.table.name) (name_fetch-Sound fs d h valid ins outs)
        (λ b k v le r.
          let more =
            name_fetch-Sound fs b k v (omega (arith, r.inputs)) (omega (arith, r.outputs)) in
          weaken more (λ g l s. IsRenamed-trans d b g r s)))
  where
    matched :
        (i : TableColumn) (t : Bool)
        → Sound F h (λ e k. IsRenamed d e) (name_fetch fs d h)
        → ((e : IrData) (k : Heap)
            → IsHeap k
            → Grown h k
            → IsRenamed d e
            → Sound F k (λ e k. IsRenamed d e) (name_fetch fs e k))
        → Sound F h
            (λ e k. IsRenamed d e)
            ((elim t as (λ _. Cmd IrData) [
              | true ↦ rename_fetch f.column_name d >>= name_fetch fs
              | false ↦ name_fetch fs d
            ])
              h)
    matched i true other same = step (rename_fetch-Sound f.column_name d h valid ins outs) same
    matched i false other same = other
