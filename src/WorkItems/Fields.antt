-- ===== src/WorkItems/Fields.antt =====
-- The API data of one node, field for field.
use db_query_optimizer.Common.Text.{bytes}
use db_query_optimizer.Common.{
  map, ℕ, ◌+◌, ◌≤◌, true, false, Option, none, some, List, [], ◌∷◌, length, length-map, get_elem?,
  inl, inr, ◌≡◌, refl, arith, Bool-cases,
}
use db_query_optimizer.Base.{TableColumn}
use db_query_optimizer.Ir.{
  SortOp, IrData, OpInfo, monostate, join_op, semi_join_op, group_op, fetch_op, agg_op, filter_op,
  sort_op, map_op, set_op, select_op, mat_op, GroupOp,
}
use db_query_optimizer.Ir.Shape.{OpShape, GroupShape, agg_count}
use db_query_optimizer.Ir.GroupView
use db_query_optimizer.WorkItems.Messages.{
  ApiData, empty, FilterNode, JoinNode, SemiJoinNode, MapNode, MultiGroupNode, AggNode, SortNode,
  SetOperationNode, MaterializeNode, ResultNode, materialize, filter, join, semi_join, map_with,
  multi_group, set_operation, sort, agg, result,
}
use db_query_optimizer.WorkItems.Api.{
  result_struct, missing_col, filter_struct, join_struct, semi_join_struct, map_struct, agg_columns,
  group_struct, agg_struct, sort_struct, set_struct, mat_struct, api_of,
}

-- The columns of a group's aggregation: the last input and the last output, or none.
abbrev pub AggColumnsOf : GroupOp → IrData → TableColumn → TableColumn → Type 0
AggColumnsOf op d a b = elim op.has_agg [
  | true ↦ (GroupView.back d.input_columns ≡ some a) × (GroupView.back d.output_cols ≡ some b)
  | false ↦ (a ≡ missing_col) × (b ≡ missing_col)
]

-- The n-th input and the n-th output of a node.
abbrev pub Input : IrData → ℕ → TableColumn → Type 0
Input d i c = get_elem? d.input_columns i ≡ some c

abbrev pub Output : IrData → ℕ → TableColumn → Type 0
Output d i c = get_elem? d.output_cols i ≡ some c

-- An optional column of an operator, and the missing one where there is none.
abbrev pub IsOptional : Option TableColumn → TableColumn → Type 0
IsOptional o c = elim o [ none ↦ c ≡ missing_col | some x ↦ c ≡ x ]

-- The data for an operator and its columns, field for field. A group's columns are all its inputs:
-- one more than it has directions where there is an aggregation, and as many where there is none.
abbrev pub KindOf : OpInfo → IrData → ApiData → Type 0
KindOf (filter_op op) d a =
    (n : FilterNode) × (a ≡ filter n)
    × Input d 0 n.input_column
    × Output d 0 n.output_column
    × (n.filter_type ≡ op.filter_type)
    × (n.filter_arg_vals ≡ op.filter_args)
KindOf (join_op op) d a =
    (n : JoinNode) × (a ≡ join n)
    × Input d 0 n.inner_column
    × Input d 1 n.outer_column
    × Output d 0 n.i_output_column
    × Output d 1 n.o_output_column
    × (n.join_predicate ≡ op.join_predicate)
KindOf (semi_join_op op) d a =
    (n : SemiJoinNode) × (a ≡ semi_join n)
    × Input d 0 n.inner_column
    × Input d 1 n.outer_column
    × Output d 0 n.i_output_column
    × Output d 1 n.o_output_column
    × (n.join_predicate ≡ op.join_predicate)
KindOf (map_op op) d a =
    (n : MapNode) × (a ≡ map_with n)
    × Input d 0 n.input_column
    × Output d 0 n.output_column
    × (n.operator_type ≡ op.operator_type)
    × (n.partner_val ≡ op.partner_val)
KindOf (group_op op) d a =
    (n : MultiGroupNode) × (a ≡ multi_group n)
    × (length n.group_columns ≡ length n.sort_orders + agg_count op.has_agg)
    × (n.group_columns ≡ d.input_columns)
    × (n.sort_orders ≡ op.sort_orders)
    × Output d 0 n.output_idx
    × Output d 1 n.output_sort_index
    × Output d 2 n.output_cluster
    × AggColumnsOf op d n.agg_column n.agg_result_column
    × (n.store_extends ≡ false)
KindOf (agg_op op) d a =
    (n : AggNode) × (a ≡ agg n)
    × Input d 0 n.input_column
    × Output d 0 n.output_column
    × (n.agg_func ≡ op.agg_func)
    × (n.group_columns ≡ [])
KindOf (sort_op op) d a =
    (n : SortNode) × (a ≡ sort n)
    × (length n.input_columns ≡ length n.sort_orders)
    × (n.input_columns ≡ map (λ o. o.column) op.column_list)
    × (n.sort_orders ≡ map (λ o. o.order_type) op.column_list)
    × Output d 0 n.idx_output
    × IsOptional op.existing_idx n.existing_idx
KindOf (set_op op) d a =
    (n : SetOperationNode) × (a ≡ set_operation n)
    × (n.operation ≡ op.operation)
    × Input d 0 n.inner_column
    × Input d 1 n.outer_column
    × Output d 0 n.output_column
KindOf mat_op d a =
    (n : MaterializeNode) × (a ≡ materialize n)
    × Input d 0 n.idx_column
    × Input d 1 n.filter_column
    × Output d 0 n.output_column
KindOf (select_op op) d a =
    (n : ResultNode) × (a ≡ result n)
    × (n.filename ≡ bytes "result.csv")
    × (n.result_columns ≡ d.input_columns)
    × (n.result_headers ≡ op.result_headers)
    × IsOptional op.result_idx n.result_idx
KindOf (fetch_op op) d a = a ≡ empty
KindOf monostate d a = a ≡ empty

abbrev Made : OpInfo → IrData → Option ApiData → Type 0
Made i d r = (a : ApiData) × (r ≡ some a) × KindOf i d a

is_optional : (o : Option TableColumn) → IsOptional o (elim o [ none ↦ missing_col | some c ↦ c ])
is_optional none = refl
is_optional (some c) = refl

at_0 : (xs : List TableColumn) → 1 ≤ length xs → (c : TableColumn) × (get_elem? xs 0 ≡ some c)
at_0 [] h = absurd (omega arith)
at_0 (x ∷ xs) h = (x, refl)

at_1 : (xs : List TableColumn) → 2 ≤ length xs → (c : TableColumn) × (get_elem? xs 1 ≡ some c)
at_1 [] h = absurd (omega arith)
at_1 (x ∷ xs) h = at_0 xs (omega arith)

at_2 : (xs : List TableColumn) → 3 ≤ length xs → (c : TableColumn) × (get_elem? xs 2 ≡ some c)
at_2 [] h = absurd (omega arith)
at_2 (x ∷ xs) h = at_1 xs (omega arith)

last_of : (xs : List TableColumn) → 1 ≤ length xs → (c : TableColumn) × (GroupView.back xs ≡ some c)
unfolding GroupView.back
last_of [] h = absurd (omega arith)
last_of (x ∷ []) h = (x, refl)
last_of (x ∷ y ∷ r) h = last_of (y ∷ r) (omega arith)

both_columns :
    (op : GroupOp) (d : IrData) (a b : TableColumn)
    → op.has_agg ≡ true
    → GroupView.back d.input_columns ≡ some a
    → GroupView.back d.output_cols ≡ some b
    → agg_columns op d ≡ some (a, b)
unfolding agg_columns GroupView.agg_col GroupView.agg_result_col
both_columns op d a b n ea eb = ground arith

agg_columns_lem :
    (op : GroupOp) (d : IrData)
    → GroupShape op d.input_columns d.output_cols
    → (cs : TableColumn × TableColumn) × (agg_columns op d ≡ some cs) × AggColumnsOf op d cs.0 cs.1
unfolding agg_columns GroupView.agg_col GroupView.agg_result_col
agg_columns_lem op d h = elim (Bool-cases op.has_agg) [
  | inr n ↦
      ((missing_col, missing_col), rw (agg_columns, GroupView.agg_col, n) refl, rw n (refl, refl))
  | inl n ↦
      let hi : length d.input_columns ≡ length op.sort_orders + 1 = rw n at h.0 in
      let ho : length d.output_cols ≡ 4 = rw n at h.1 in
      let (a, ea) = last_of d.input_columns (omega arith) in
      let (b, eb) = last_of d.output_cols (omega arith) in
      ((a, b), both_columns op d a b n ea eb, rw n (ea, eb))
]

group_struct_lem :
    (op : GroupOp) (d : IrData)
    → GroupShape op d.input_columns d.output_cols
    → Made (group_op op) d (group_struct op d)
unfolding group_struct
group_struct_lem op d h =
    let (a, ea) = at_0 d.output_cols (omega (arith, h.1)) in
    let (b, eb) = at_1 d.output_cols (omega (arith, h.1)) in
    let (c, ec) = at_2 d.output_cols (omega (arith, h.1)) in
    let (cs, ecs, are) = agg_columns_lem op d h in
    rw (group_struct, ea, eb, ec, ecs)
      (_, refl, (_, refl, h.0, refl, refl, refl, refl, refl, are, refl))

same_length :
    (op : SortOp)
    → length (map (λ o. o.column) op.column_list) ≡ length (map (λ o. o.order_type) op.column_list)
same_length op = omega (
  arith,
  length-map op.column_list (λ o. o.column),
  length-map op.column_list (λ o. o.order_type),
)

pub api_of-Made :
    (i : OpInfo) (d : IrData) → OpShape i d.input_columns d.output_cols → Made i d (api_of i d)
unfolding api_of result_struct filter_struct join_struct semi_join_struct map_struct agg_struct
    sort_struct set_struct mat_struct
api_of-Made monostate d h = (_, refl, refl)
api_of-Made (fetch_op op) d h = (_, refl, refl)
api_of-Made (select_op op) d h = (_, refl, (_, refl, refl, refl, refl, is_optional op.result_idx))
api_of-Made (group_op op) d h = group_struct_lem op d h
api_of-Made (filter_op op) d (h, _, k) =
    let (a, ea) = at_0 d.input_columns h in
    let (b, eb) = at_0 d.output_cols (omega (arith, k)) in
    rw (ea, eb) (_, refl, (_, refl, refl, refl, refl, refl))
api_of-Made (map_op op) d (h, _, k) =
    let (a, ea) = at_0 d.input_columns h in
    let (b, eb) = at_0 d.output_cols (omega (arith, k)) in
    rw (ea, eb) (_, refl, (_, refl, refl, refl, refl, refl))
api_of-Made (agg_op op) d (h, k) =
    let (a, ea) = at_0 d.input_columns (omega (arith, h)) in
    let (b, eb) = at_0 d.output_cols (omega (arith, k)) in
    rw (ea, eb) (_, refl, (_, refl, refl, refl, refl, refl))
api_of-Made (sort_op op) d (h, k) =
    let (b, eb) = at_0 d.output_cols (omega (arith, k)) in
    let even = same_length op in
    rw (eb) (_, refl, (_, refl, even, refl, refl, refl, is_optional op.existing_idx))
api_of-Made (join_op op) d (h, k) =
    let (a, ea) = at_0 d.input_columns (omega (arith, h)) in
    let (b, eb) = at_1 d.input_columns (omega (arith, h)) in
    let (u, eu) = at_0 d.output_cols (omega (arith, k)) in
    let (v, ev) = at_1 d.output_cols (omega (arith, k)) in
    rw (ea, eb, eu, ev) (_, refl, (_, refl, refl, refl, refl, refl, refl))
api_of-Made (semi_join_op op) d (h, k) =
    let (a, ea) = at_0 d.input_columns (omega (arith, h)) in
    let (b, eb) = at_1 d.input_columns (omega (arith, h)) in
    let (u, eu) = at_0 d.output_cols (omega (arith, k)) in
    let (v, ev) = at_1 d.output_cols (omega (arith, k)) in
    rw (ea, eb, eu, ev) (_, refl, (_, refl, refl, refl, refl, refl, refl))
api_of-Made (set_op op) d (h, k) =
    let (a, ea) = at_0 d.input_columns (omega (arith, h)) in
    let (b, eb) = at_1 d.input_columns (omega (arith, h)) in
    let (u, eu) = at_0 d.output_cols (omega (arith, k)) in
    rw (ea, eb, eu) (_, refl, (_, refl, refl, refl, refl, refl))
api_of-Made mat_op d (h, k) =
    let (a, ea) = at_0 d.input_columns (omega (arith, h)) in
    let (b, eb) = at_1 d.input_columns (omega (arith, h)) in
    let (u, eu) = at_0 d.output_cols (omega (arith, k)) in
    rw (ea, eb, eu) (_, refl, (_, refl, refl, refl, refl))
