-- ===== src/Tests/RawPlans.antt =====
-- The pruning of a raw plan: a gather over an aggregation over a hash over a scan.
use db_query_optimizer.Common.{false, none, some, [], ◌≡◌}
use db_query_optimizer.Common.Text.{Text, bytes}
use db_query_optimizer.Ir.{IrData, NodeData, Plan, node, nil, cons, empty, monostate}
use db_query_optimizer.JsonPlan.{prune_tree}
use db_query_optimizer.JsonPlan.Scans.{scans, scans-prune_tree}

abbrev no_data : IrData
no_data = record {
  input_columns = [];
  output_cols = [];
  outputs_pos_list = false;
  outputs_mat_vals = false;
  op_info = monostate;
}

abbrev raw_node : Text → NodeData
raw_node node_type = record {
  raw_json = some (record {
    node_type = node_type;
    node_operator = none;
    sub_plan = none;
    plan_params = record {
      base_table = none;
      filter_predicate = none;
      sort_keys = [];
      parallel_workers = 0;
      index = [];
      lookup_key = none;
      subplan_name = none;
    };
  });
  abstract_data = empty;
  ir_data = no_data;
}

abbrev gathered : Plan
gathered = node (raw_node (bytes "Gather")) (
    cons
      (node (raw_node (bytes "Aggregate")) (
        cons (node (raw_node (bytes "Hash")) (cons (node (raw_node (bytes "Seq Scan")) nil) nil))
          nil))
      nil)

scans-prune_tree_example : scans (prune_tree gathered) ≡ scans gathered
scans-prune_tree_example = scans-prune_tree gathered
