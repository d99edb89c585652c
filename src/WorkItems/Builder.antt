-- ===== src/WorkItems/Builder.antt =====
-- `ItemBuilder` of src/translation/item_builder.cpp. The global `currentItemId` is passed on;
-- `currentPlanId` is 0 and never changes. A `float` is widened to a `double` in its message, and is
-- the same number here.
use db_query_optimizer.Common.{ℕ, suc, ◌+◌, ◌%◌, ◌^◌, List, [], ◌∷◌, ◌++◌, map}
use db_query_optimizer.Base.{TableColumn}
use db_query_optimizer.Ir.{PartnerValue, partner_column, partner_scalar}
use db_query_optimizer.WorkItems.Messages.{
  OperatorType, op_filter, op_hashjoin, op_aggregate, op_setoperation, op_sort, op_map,
  op_materialize, op_groupby, ColumnMessage, PartnerMessage, column_partner, static_partner, OpData,
  filter_data, join_data, agg_data, sort_data, map_data, materialize_data, set_data, fetch_data,
  multi_group_data, result_data, WorkItem, FetchNode, FilterNode, JoinNode, MapNode,
  MaterializeNode, MultiGroupNode, SetOperationNode, SortNode, AggNode, ResultNode, ApiData, empty,
  fetch, materialize, filter, join, semi_join, map_with, multi_group, set_operation, sort, agg,
  result,
}

-- `setTableColumnType`
unfoldable pub set_table_column_type : TableColumn → ColumnMessage
set_table_column_type c = record {
  tab_name = c.table.name;
  col_name = c.column_name;
  col_type = c.column_type;
}

-- `createWorkItem(operatorType)`, with the data that its caller sets.
unfoldable pub create_work_item : OperatorType → OpData → ℕ → WorkItem × ℕ
create_work_item operator_type data_of_item current_item_id = (
  record {
    plan_id = 0;
    item_id = current_item_id;
    operator_id = operator_type;
    op_data = data_of_item;
  },
  (current_item_id + 1) % 2 ^ 32,
)

-- `createWorkItem()`: the operator's type is always 1.
unfoldable pub create_debug_item : OpData → ℕ → WorkItem × ℕ
unfolding create_work_item
create_debug_item = create_work_item op_filter

unfoldable pub create_fetch_item : FetchNode → ℕ → WorkItem × ℕ
unfolding create_debug_item set_table_column_type
create_fetch_item n = create_debug_item (
    fetch_data (record {
      input_column = set_table_column_type n.input_column;
      print_to_file = n.print_to_file;
    }))

unfoldable pub create_filter_item : FilterNode → ℕ → WorkItem × ℕ
unfolding create_work_item set_table_column_type
create_filter_item n = create_work_item op_filter (
    filter_data (record {
      input_column = set_table_column_type n.input_column;
      output_column = set_table_column_type n.output_column;
      filter_type = n.filter_type;
      filter_value = n.filter_arg_vals;
    }))

unfoldable pub create_join_item : JoinNode → ℕ → WorkItem × ℕ
unfolding create_work_item set_table_column_type
create_join_item n = create_work_item op_hashjoin (
    join_data (record {
      inner_column = set_table_column_type n.inner_column;
      outer_column = set_table_column_type n.outer_column;
      i_output_column = set_table_column_type n.i_output_column;
      o_output_column = set_table_column_type n.o_output_column;
      join_predicate = n.join_predicate;
    }))

unfoldable pub partner_message : PartnerValue → PartnerMessage
unfolding set_table_column_type
partner_message (partner_column c) = column_partner (set_table_column_type c)
partner_message (partner_scalar s) = static_partner s

unfoldable pub create_map_item : MapNode → ℕ → WorkItem × ℕ
unfolding create_work_item set_table_column_type partner_message
create_map_item n = create_work_item op_map (
    map_data (record {
      input_column = set_table_column_type n.input_column;
      output_column = set_table_column_type n.output_column;
      operator_type = n.operator_type;
      partner_val = partner_message n.partner_val;
    }))

unfoldable pub create_materialize_item : MaterializeNode → ℕ → WorkItem × ℕ
unfolding create_work_item set_table_column_type
create_materialize_item n = create_work_item op_materialize (
    materialize_data (record {
      index_column = set_table_column_type n.idx_column;
      filter_column = set_table_column_type n.filter_column;
      output_column = set_table_column_type n.output_column;
    }))

unfoldable pub create_multi_group_item : MultiGroupNode → ℕ → WorkItem × ℕ
unfolding create_work_item set_table_column_type
create_multi_group_item n = create_work_item op_groupby (
    multi_group_data (record {
      group_columns = map set_table_column_type n.group_columns;
      output_index = set_table_column_type n.output_idx;
      output_sort_index = set_table_column_type n.output_sort_index;
      output_clusters = set_table_column_type n.output_cluster;
      aggregation_column = set_table_column_type n.agg_column;
      aggregation_result_column = set_table_column_type n.agg_result_column;
      store_extends = n.store_extends;
      sort_orders = n.sort_orders;
    }))

unfoldable pub create_set_operation_item : SetOperationNode → ℕ → WorkItem × ℕ
unfolding create_work_item set_table_column_type
create_set_operation_item n = create_work_item op_setoperation (
    set_data (record {
      operation = n.operation;
      inner_column = set_table_column_type n.inner_column;
      outer_column = set_table_column_type n.outer_column;
      output_column = set_table_column_type n.output_column;
    }))

unfoldable pub create_sort_item : SortNode → ℕ → WorkItem × ℕ
unfolding create_work_item set_table_column_type
create_sort_item n = create_work_item op_sort (
    sort_data (record {
      input_columns = map set_table_column_type n.input_columns;
      sort_order = n.sort_orders;
      index_output = set_table_column_type n.idx_output;
      existing_index = set_table_column_type n.existing_idx;
    }))

unfoldable pub create_agg_item : AggNode → ℕ → WorkItem × ℕ
unfolding create_work_item set_table_column_type
create_agg_item n = create_work_item op_aggregate (
    agg_data (record {
      input_column = set_table_column_type n.input_column;
      output_column = set_table_column_type n.output_column;
      agg_func = n.agg_func;
      group_columns = n.group_columns;
    }))

-- The index of the result is not put into the message.
unfoldable pub create_result_item : ResultNode → ℕ → WorkItem × ℕ
unfolding create_debug_item set_table_column_type
create_result_item n = create_debug_item (
    result_data (record {
      filename = n.filename;
      result_columns = map set_table_column_type n.result_columns;
      result_header = n.result_headers;
    }))

-- `w.set_itemid(itemId); w.set_planid(planId); workItems.push_back(w);`
unfoldable pub pushed : ℕ → ℕ → WorkItem × ℕ → List WorkItem × ℕ
pushed item_id plan_id (w, s) =
    (record w { item_id = item_id % 2 ^ 32; plan_id = plan_id % 2 ^ 32 } ∷ [], s)

-- The tests for the kind of a node: there is none for a semi-join.
unfoldable pub item_for : ApiData → ℕ → ℕ → ℕ → List WorkItem × ℕ
unfolding pushed create_fetch_item create_materialize_item create_filter_item create_join_item
    create_map_item create_multi_group_item create_set_operation_item create_sort_item
    create_agg_item create_result_item
item_for (fetch n) item_id plan_id s = pushed item_id plan_id (create_fetch_item n s)
item_for (materialize n) item_id plan_id s = pushed item_id plan_id (create_materialize_item n s)
item_for (filter n) item_id plan_id s = pushed item_id plan_id (create_filter_item n s)
item_for (join n) item_id plan_id s = pushed item_id plan_id (create_join_item n s)
item_for (map_with n) item_id plan_id s = pushed item_id plan_id (create_map_item n s)
item_for (multi_group n) item_id plan_id s = pushed item_id plan_id (create_multi_group_item n s)
item_for (set_operation n) item_id plan_id s =
    pushed item_id plan_id (create_set_operation_item n s)
item_for (sort n) item_id plan_id s = pushed item_id plan_id (create_sort_item n s)
item_for (agg n) item_id plan_id s = pushed item_id plan_id (create_agg_item n s)
item_for (result n) item_id plan_id s = pushed item_id plan_id (create_result_item n s)
item_for (semi_join n) item_id plan_id s = ([], s)
item_for empty item_id plan_id s = ([], s)

-- The loop over the nodes.
unfoldable pub items_from : List ApiData → ℕ → ℕ → ℕ → List WorkItem × ℕ
unfolding item_for
items_from [] item_id plan_id s = ([], s)
items_from (n ∷ nodes) item_id plan_id s =
    let here = item_for n item_id plan_id s in
    let rest = items_from nodes (suc item_id) plan_id here.1 in (here.0 ++ rest.0, rest.1)

-- `createWorkItems`
unfoldable pub create_work_items : List ApiData → ℕ → ℕ → List WorkItem × ℕ
unfolding items_from
create_work_items nodes plan_id current_item_id = items_from nodes 1 plan_id current_item_id
