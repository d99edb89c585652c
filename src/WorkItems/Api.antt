-- ===== src/WorkItems/Api.antt =====
-- `irToApiData` of src/ir/ir_to_api.cpp: what the builder needs of each node, and the removal of the
-- fetches. `none` is a fault: a column or a child that is not there; on a null root, where the source does nothing, it
-- is `none` too. The set of visited nodes is
-- left out: nothing is ever put into it.
use db_query_optimizer.Common.{
  Bool, true, false, Option, none, some, [], map, if◌then◌else◌, get_elem?, ◌>>=◌,
}
use db_query_optimizer.Common.Text.{bytes}
use db_query_optimizer.Base.{TableColumn, type_integer, table_named, make_column}
use db_query_optimizer.Ir.{
  IrData, OpInfo, monostate, join_op, semi_join_op, group_op, fetch_op, agg_op, filter_op, sort_op,
  map_op, set_op, select_op, mat_op, GroupOp, FilterOp, JoinOp, SemiJoinOp, MapOp, AggOp, SortOp,
  SetOp, SelectOp, Plan, Plans, null, node, nil, cons,
}
use db_query_optimizer.Ir.FetchView
use db_query_optimizer.Ir.GroupView
use db_query_optimizer.WorkItems.Messages.{
  ApiData, empty, materialize, filter, join, semi_join, map_with, multi_group, set_operation, sort,
  agg, result,
}

-- `missingCol`: static, so its type is zero.
unfoldable pub missing_col : TableColumn
unfolding make_column
missing_col = make_column (table_named []) [] type_integer none

unfoldable pub filter_struct : FilterOp → IrData → Option ApiData
filter_struct op d = do
  col1 ← get_elem? d.input_columns 0
  output ← get_elem? d.output_cols 0
  some (
      filter (record {
        input_column = col1;
        output_column = output;
        filter_type = op.filter_type;
        filter_arg_vals = op.filter_args;
      }))

unfoldable pub join_struct : JoinOp → IrData → Option ApiData
join_struct op d = do
  inner ← get_elem? d.input_columns 0
  outer ← get_elem? d.input_columns 1
  inner_out ← get_elem? d.output_cols 0
  outer_out ← get_elem? d.output_cols 1
  some (
      join (record {
        inner_column = inner;
        outer_column = outer;
        i_output_column = inner_out;
        o_output_column = outer_out;
        join_predicate = op.join_predicate;
      }))

unfoldable pub semi_join_struct : SemiJoinOp → IrData → Option ApiData
semi_join_struct op d = do
  inner ← get_elem? d.input_columns 0
  outer ← get_elem? d.input_columns 1
  inner_out ← get_elem? d.output_cols 0
  outer_out ← get_elem? d.output_cols 1
  some (
      semi_join (record {
        inner_column = inner;
        outer_column = outer;
        i_output_column = inner_out;
        o_output_column = outer_out;
        join_predicate = op.join_predicate;
      }))

unfoldable pub map_struct : MapOp → IrData → Option ApiData
map_struct op d = do
  input ← get_elem? d.input_columns 0
  output ← get_elem? d.output_cols 0
  some (
      map_with (record {
        input_column = input;
        output_column = output;
        operator_type = op.operator_type;
        partner_val = op.partner_val;
      }))

-- The aggregation's two columns, or the missing one for both.
unfoldable pub agg_columns : GroupOp → IrData → Option (TableColumn × TableColumn)
unfolding missing_col GroupView.agg_col GroupView.agg_result_col
agg_columns op d = elim (GroupView.agg_col op d) [
  | none ↦ some (missing_col, missing_col)
  | some col ↦ elim (GroupView.agg_result_col op d) [
    | none ↦ none
    | some result_col ↦ some (col, result_col)
  ]
]

-- The group columns are all the inputs, with an aggregated column among them.
unfoldable pub group_struct : GroupOp → IrData → Option ApiData
unfolding agg_columns
group_struct op d = do
  idx ← get_elem? d.output_cols 0
  sort_idx ← get_elem? d.output_cols 1
  cluster ← get_elem? d.output_cols 2
  aggs ← agg_columns op d
  some (
      multi_group (record {
        group_columns = d.input_columns;
        output_idx = idx;
        output_sort_index = sort_idx;
        output_cluster = cluster;
        agg_column = aggs.0;
        agg_result_column = aggs.1;
        store_extends = false;
        sort_orders = op.sort_orders;
      }))

unfoldable pub agg_struct : AggOp → IrData → Option ApiData
agg_struct op d = do
  input ← get_elem? d.input_columns 0
  output ← get_elem? d.output_cols 0
  some (
      agg (record {
        input_column = input;
        output_column = output;
        agg_func = op.agg_func;
        group_columns = [];
      }))

-- The columns are those of the order descriptions.
unfoldable pub sort_struct : SortOp → IrData → Option ApiData
unfolding missing_col
sort_struct op d = do
  idx ← get_elem? d.output_cols 0
  some (
      sort (record {
        input_columns = map (λ o. o.column) op.column_list;
        idx_output = idx;
        existing_idx = elim op.existing_idx [ none ↦ missing_col | some c ↦ c ];
        sort_orders = map (λ o. o.order_type) op.column_list;
      }))

unfoldable pub set_struct : SetOp → IrData → Option ApiData
set_struct op d = do
  inner ← get_elem? d.input_columns 0
  outer ← get_elem? d.input_columns 1
  output ← get_elem? d.output_cols 0
  some (
      set_operation (record {
        operation = op.operation;
        inner_column = inner;
        outer_column = outer;
        output_column = output;
      }))

unfoldable pub mat_struct : IrData → Option ApiData
mat_struct d = do
  idx ← get_elem? d.input_columns 0
  filter_col ← get_elem? d.input_columns 1
  output ← get_elem? d.output_cols 0
  some (
      materialize (record { idx_column = idx; filter_column = filter_col; output_column = output }))

unfoldable pub result_struct : SelectOp → IrData → ApiData
unfolding missing_col
result_struct op d = result (record {
  filename = bytes "result.csv";
  result_columns = d.input_columns;
  result_idx = elim op.result_idx [ none ↦ missing_col | some c ↦ c ];
  result_headers = op.result_headers;
})

-- The tests for the kind of a node.
unfoldable pub api_of : OpInfo → IrData → Option ApiData
unfolding filter_struct join_struct semi_join_struct map_struct group_struct agg_struct sort_struct
    set_struct mat_struct result_struct
api_of (filter_op op) d = filter_struct op d
api_of (join_op op) d = join_struct op d
api_of (semi_join_op op) d = semi_join_struct op d
api_of (map_op op) d = map_struct op d
api_of (group_op op) d = group_struct op d
api_of (agg_op op) d = agg_struct op d
api_of (sort_op op) d = sort_struct op d
api_of (set_op op) d = set_struct op d
api_of mat_op d = mat_struct d
api_of (select_op op) d = some (result_struct op d)
api_of (fetch_op op) d = some empty
api_of monostate d = some empty

-- The plan with its `apiData`.
mutual
  pub data ApiPlan : Type 0 where
    api_node : ApiData → ApiPlans → ApiPlan

  pub data ApiPlans : Type 0 where
    api_nil : ApiPlans
    api_cons : ApiPlan → ApiPlans → ApiPlans

unfoldable pub is_fetch : IrData → Bool
unfolding FetchView.view_if
is_fetch d = elim (FetchView.view_if d) [ none ↦ false | some _ ↦ true ]

unfoldable mutual
  unfolding api_of is_fetch

  -- `irToApiData`
  pub ir_to_api_data : Plan → Option ApiPlan
  ir_to_api_data null = none
  ir_to_api_data (node d cs) = do
    a ← api_of d.ir_data.op_info d.ir_data
    children ← ir_to_api_children cs
    some (api_node a children)

  -- The children but the fetches.
  pub ir_to_api_children : Plans → Option ApiPlans
  ir_to_api_children nil = some api_nil
  ir_to_api_children (cons null ps) = none
  ir_to_api_children (cons (node d cs) ps) =
      let here = ir_to_api_data (node d cs) in
      let rest = ir_to_api_children ps in
      if is_fetch d.ir_data then rest else here >>= λ p. rest >>= λ ps'. some (api_cons p ps')
