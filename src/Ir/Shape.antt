-- ===== src/Ir/Shape.antt =====
-- The shape that each operator's `IrData` has: how many columns go in and out.
use db_query_optimizer.Common.{
  ℕ, suc, ◌+◌, ◌≤◌, Bool, false, none, some, List, [], ◌∷◌, ◌++◌, length, length-append,
  if◌then◌else◌, ◌≡◌, ◌∙◌, Bool-cases, inl, inr, refl, arith, ap,
}
use db_query_optimizer.Base.{TableColumn}
use db_query_optimizer.Ir.{
  IrData, OpInfo, GroupOp, join_op, semi_join_op, group_op, fetch_op, agg_op, filter_op, sort_op,
  map_op, set_op, select_op, mat_op, monostate, Plan, Plans, null, node, nil, cons,
}
use db_query_optimizer.Ir.GroupView

-- One column for the aggregation, if there is one.
abbrev pub agg_count : Bool → ℕ
agg_count has_agg = if has_agg then 1 else 0

-- A group's columns: a sort order for each grouping column, and three outputs, each list with one
-- more at its end for an aggregation.
abbrev pub GroupShape : GroupOp → List TableColumn → List TableColumn → Type 0
GroupShape op inputs outputs =
    (length inputs ≡ length op.sort_orders + agg_count op.has_agg)
    × (length outputs ≡ 3 + agg_count op.has_agg)

-- The shape by operator.
abbrev pub OpShape : OpInfo → List TableColumn → List TableColumn → Type 0
OpShape monostate inputs outputs = Unit
OpShape (join_op op) inputs outputs = (length inputs ≡ 2) × (length outputs ≡ 2)
OpShape (semi_join_op op) inputs outputs = (length inputs ≡ 2) × (length outputs ≡ 2)
OpShape (group_op op) inputs outputs = GroupShape op inputs outputs
OpShape (fetch_op op) inputs outputs = (length inputs ≡ 1) × (length outputs ≡ 1)
OpShape (agg_op op) inputs outputs = (length inputs ≡ 1) × (length outputs ≡ 1)
OpShape (filter_op op) inputs outputs =
    (1 ≤ length inputs) × (length inputs ≤ 2) × (length outputs ≡ 1)
OpShape (sort_op op) inputs outputs =
    (length inputs ≡ length op.column_list + elim op.existing_idx [ none ↦ 0 | some _ ↦ 1 ])
    × (length outputs ≡ 1)
OpShape (map_op op) inputs outputs =
    (1 ≤ length inputs) × (length inputs ≤ 2) × (length outputs ≡ 1)
OpShape (set_op op) inputs outputs = (length inputs ≡ 2) × (length outputs ≡ 1)
OpShape (select_op op) inputs outputs = inputs ≡ outputs
OpShape mat_op inputs outputs = (length inputs ≡ 2) × (length outputs ≡ 1)

abbrev pub IsShaped : IrData → Type 0
IsShaped d = OpShape d.op_info d.input_columns d.output_cols

abbrev mutual
  -- Every node of the plan has the property.
  pub AllNodes : (IrData → Type 0) → Plan → Type 0
  AllNodes P null = Unit
  AllNodes P (node d cs) = P d.ir_data × AllInPlans P cs

  pub AllInPlans : (IrData → Type 0) → Plans → Type 0
  AllInPlans P nil = Unit
  AllInPlans P (cons p ps) = AllNodes P p × AllInPlans P ps

-- Every node of the plan has its operator's shape.
abbrev pub IsShapedPlan : Plan → Type 0
IsShapedPlan = AllNodes IsShaped

abbrev pub AreShapedPlans : Plans → Type 0
AreShapedPlans = AllInPlans IsShaped

module _ {ℓ} {A : Type ℓ} where
  pub length-pop_back :
      (x : A) (xs : List A) → suc (length (GroupView.pop_back (x ∷ xs))) ≡ length (x ∷ xs)
  unfolding GroupView.pop_back
  length-pop_back x [] = refl
  length-pop_back x (y ∷ r) = ap suc (length-pop_back y r)

  pub back-append : (xs : List A) (y : A) → GroupView.back (xs ++ y ∷ []) ≡ some y
  unfolding GroupView.back
  back-append [] y = refl
  back-append (x ∷ []) y = refl
  back-append (x ∷ z ∷ r) y = back-append (z ∷ r) y

  pub pop_back-append : (xs : List A) (y : A) → GroupView.pop_back (xs ++ y ∷ []) ≡ xs
  unfolding GroupView.pop_back
  pop_back-append [] y = refl
  pop_back-append (x ∷ []) y = refl
  pop_back-append (x ∷ z ∷ r) y = ap (λ t. x ∷ t) (pop_back-append (z ∷ r) y)

  length_pop_append :
      (xs : List A) (y : A) {n : ℕ}
      → length xs ≡ suc n
      → length (GroupView.pop_back xs ++ y ∷ []) ≡ suc n
  length_pop_append [] y h = absurd (omega arith)
  length_pop_append (x ∷ xs) y h =
      omega (arith, length-append (GroupView.pop_back (x ∷ xs)) (y ∷ []), length-pop_back x xs)

-- `setAgg` keeps a group's shape, with an aggregation before and without.
pub set_agg-IsShaped :
    (d : IrData) (op : GroupOp) (agg_col agg_result_col : TableColumn)
    → d.op_info ≡ group_op op
    → GroupShape op d.input_columns d.output_cols
    → IsShaped (GroupView.set_agg op agg_col agg_result_col d)
unfolding GroupView.set_agg
set_agg-IsShaped d op agg_col agg_result_col e h = elim (Bool-cases op.has_agg) [
  | inl has ↦ rw has (
      rw e (
        rw has (
          (
            omega (
              arith,
              length_pop_append d.input_columns agg_col {n = length op.sort_orders}
                  (h.0 ∙ rw has (omega arith)),
            ),
            omega (
              arith,
              length_pop_append d.output_cols agg_result_col {n = 3} (h.1 ∙ rw has (omega arith)),
            ),
          ))))
  | inr lacks ↦ rw lacks (
      let hi : length d.input_columns ≡ length op.sort_orders = h.0 ∙ rw lacks (omega arith) in
      let ho : length d.output_cols ≡ 3 = h.1 ∙ rw lacks (omega arith) in
      (
        omega (arith, length-append d.input_columns (agg_col ∷ [])),
        omega (arith, length-append d.output_cols (agg_result_col ∷ [])),
      ))
]

-- After `setAgg` the view reads back the two columns that were set.
pub agg_col-set_agg :
    (d : IrData) (op op' : GroupOp) (agg_col agg_result_col : TableColumn)
    → d.op_info ≡ group_op op
    → (GroupView.set_agg op agg_col agg_result_col d).op_info ≡ group_op op'
    → (GroupView.agg_col op' (GroupView.set_agg op agg_col agg_result_col d) ≡ some agg_col)
      × (GroupView.agg_result_col op' (GroupView.set_agg op agg_col agg_result_col d)
          ≡ some agg_result_col)
unfolding GroupView.set_agg GroupView.agg_col GroupView.agg_result_col
agg_col-set_agg d op op' agg_col agg_result_col e e' = ground (
  arith,
  back-append d.input_columns agg_col,
  back-append d.output_cols agg_result_col,
  back-append (GroupView.pop_back d.input_columns) agg_col,
  back-append (GroupView.pop_back d.output_cols) agg_result_col,
)

-- `removeAgg` after `setAgg` gives back a group that had no aggregation.
pub remove_agg-set_agg :
    (d : IrData) (op op' : GroupOp) (agg_col agg_result_col : TableColumn)
    → d.op_info ≡ group_op op
    → op.has_agg ≡ false
    → (GroupView.set_agg op agg_col agg_result_col d).op_info ≡ group_op op'
    → GroupView.remove_agg op' (GroupView.set_agg op agg_col agg_result_col d) ≡ d
unfolding GroupView.set_agg GroupView.remove_agg
remove_agg-set_agg d op op' agg_col agg_result_col e h e' =
    ground
      (arith, pop_back-append d.input_columns agg_col, pop_back-append d.output_cols agg_result_col)
