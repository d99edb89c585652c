-- ===== src/WorkItems/Messages.antt =====
-- The messages of proto/WorkItem.proto that the builder fills, and the structures of
-- include/translation/item_builder.hpp that it fills them from. The pointers of these structures
-- point into the plan, and none of them is null: they are columns here.
use db_query_optimizer.Common.{ℕ, Bool, List}
use db_query_optimizer.Common.Text.{Text}
use db_query_optimizer.Base.{TableColumn, ColumnType, CompType, AggFunc, RelOp, ArithOp}
use db_query_optimizer.Ir.{ScalarValue, PartnerValue}

pub data OperatorType : Type 0 where
  op_filter op_idxscan op_nlj op_hashjoin op_mergejoin op_aggregate op_setoperation op_sort op_map
        op_materialize op_groupby :
      OperatorType

pub record ColumnMessage : Type 0 where
  pub tab_name : Text
  pub col_name : Text
  pub col_type : ColumnType

pub record FilterItem : Type 0 where
  pub input_column : ColumnMessage
  pub output_column : ColumnMessage
  pub filter_type : CompType
  pub filter_value : List ScalarValue

pub record MultiGroupItem : Type 0 where
  pub group_columns : List ColumnMessage
  pub output_index : ColumnMessage
  pub output_sort_index : ColumnMessage
  pub output_clusters : ColumnMessage
  pub aggregation_column : ColumnMessage
  pub aggregation_result_column : ColumnMessage
  pub store_extends : Bool
  pub sort_orders : List Bool

pub record JoinItem : Type 0 where
  pub inner_column : ColumnMessage
  pub outer_column : ColumnMessage
  pub i_output_column : ColumnMessage
  pub o_output_column : ColumnMessage
  pub join_predicate : CompType

pub record AggItem : Type 0 where
  pub input_column : ColumnMessage
  pub output_column : ColumnMessage
  pub agg_func : AggFunc
  pub group_columns : List Text

pub record SortItem : Type 0 where
  pub input_columns : List ColumnMessage
  pub sort_order : List Bool
  pub index_output : ColumnMessage
  pub existing_index : ColumnMessage

-- The `oneof partnerVal`.
pub data PartnerMessage : Type 0 where
  column_partner : ColumnMessage → PartnerMessage
  static_partner : ScalarValue → PartnerMessage

pub record MapItem : Type 0 where
  pub input_column : ColumnMessage
  pub output_column : ColumnMessage
  pub operator_type : ArithOp
  pub partner_val : PartnerMessage

pub record MaterializeItem : Type 0 where
  pub index_column : ColumnMessage
  pub filter_column : ColumnMessage
  pub output_column : ColumnMessage

pub record SetOperationItem : Type 0 where
  pub operation : RelOp
  pub inner_column : ColumnMessage
  pub outer_column : ColumnMessage
  pub output_column : ColumnMessage

pub record FetchItem : Type 0 where
  pub input_column : ColumnMessage
  pub print_to_file : Bool

pub record ResultItem : Type 0 where
  pub filename : Text
  pub result_columns : List ColumnMessage
  pub result_header : List Text

-- The `oneof opData`.
pub data OpData : Type 0 where
  filter_data : FilterItem → OpData
  join_data : JoinItem → OpData
  agg_data : AggItem → OpData
  sort_data : SortItem → OpData
  map_data : MapItem → OpData
  materialize_data : MaterializeItem → OpData
  set_data : SetOperationItem → OpData
  fetch_data : FetchItem → OpData
  multi_group_data : MultiGroupItem → OpData
  result_data : ResultItem → OpData

-- The fields that the builder sets.
pub record WorkItem : Type 0 where
  pub plan_id : ℕ
  pub item_id : ℕ
  pub operator_id : OperatorType
  pub op_data : OpData

-- The structures of `ItemBuilder`.

pub record FetchNode : Type 0 where
  pub input_column : TableColumn
  pub print_to_file : Bool

pub record FilterNode : Type 0 where
  pub input_column : TableColumn
  pub output_column : TableColumn
  pub filter_type : CompType
  pub filter_arg_vals : List ScalarValue

pub record JoinNode : Type 0 where
  pub inner_column : TableColumn
  pub outer_column : TableColumn
  pub i_output_column : TableColumn
  pub o_output_column : TableColumn
  pub join_predicate : CompType

pub record SemiJoinNode : Type 0 where
  pub inner_column : TableColumn
  pub outer_column : TableColumn
  pub i_output_column : TableColumn
  pub o_output_column : TableColumn
  pub join_predicate : CompType

pub record MapNode : Type 0 where
  pub input_column : TableColumn
  pub output_column : TableColumn
  pub operator_type : ArithOp
  pub partner_val : PartnerValue

pub record MaterializeNode : Type 0 where
  pub idx_column : TableColumn
  pub filter_column : TableColumn
  pub output_column : TableColumn

pub record MultiGroupNode : Type 0 where
  pub group_columns : List TableColumn
  pub output_idx : TableColumn
  pub output_sort_index : TableColumn
  pub output_cluster : TableColumn
  pub agg_column : TableColumn
  pub agg_result_column : TableColumn
  pub store_extends : Bool
  pub sort_orders : List Bool

pub record SetOperationNode : Type 0 where
  pub operation : RelOp
  pub inner_column : TableColumn
  pub outer_column : TableColumn
  pub output_column : TableColumn

pub record SortNode : Type 0 where
  pub input_columns : List TableColumn
  pub idx_output : TableColumn
  pub existing_idx : TableColumn
  pub sort_orders : List Bool

pub record AggNode : Type 0 where
  pub input_column : TableColumn
  pub output_column : TableColumn
  pub agg_func : AggFunc
  pub group_columns : List Text

pub record ResultNode : Type 0 where
  pub filename : Text
  pub result_columns : List TableColumn
  pub result_idx : TableColumn
  pub result_headers : List Text

-- `PlanNode::apiData`
pub data ApiData : Type 0 where
  empty : ApiData
  fetch : FetchNode → ApiData
  materialize : MaterializeNode → ApiData
  filter : FilterNode → ApiData
  join : JoinNode → ApiData
  semi_join : SemiJoinNode → ApiData
  map_with : MapNode → ApiData
  multi_group : MultiGroupNode → ApiData
  set_operation : SetOperationNode → ApiData
  sort : SortNode → ApiData
  agg : AggNode → ApiData
  result : ResultNode → ApiData
