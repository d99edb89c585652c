-- ===== src/Ir.antt =====
-- The plan IR: include/ir/ir_types.hpp, include/ir/abstract_ir.hpp, include/ir/plan_node.hpp and the
-- raw plan types of include/ir/base_types.hpp.
pub mod JoinView
pub mod SemiJoinView
pub mod SelectView
pub mod AggView
pub mod FetchView
pub mod FilterView
pub mod GroupView
pub mod SortOrderView
pub mod SetOpView
pub mod MaterializeView
pub mod MapView
pub mod Shape
use db_query_optimizer.Common.{ℕ, Bool, true, false, Option, none, some, List, [], ◌∷◌, ◌++◌}
use db_query_optimizer.Common.Text.{Text}
use db_query_optimizer.Base.{
  Table, TableColumn, OrderDescription, CompType, AggFunc, ArithOp, RelOp, Join,
}

-- `std::variant<uint64_t, float, std::string>`
pub data ScalarValue : Type 0 where
  uint64_value float_value : ℕ → ScalarValue
  string_value : Text → ScalarValue

-- `std::variant<TableColumn, uint64_t, float, std::string>`
pub data PartnerValue : Type 0 where
  partner_column : TableColumn → PartnerValue
  partner_scalar : ScalarValue → PartnerValue

pub record GroupOp : Type 0 where
  pub sort_orders : List Bool
  pub has_agg : Bool
  pub store_extends : Bool

pub record FetchOp : Type 0 where
  pub was_table_base_node : Bool

pub record AggOp : Type 0 where
  pub agg_func : AggFunc

pub record JoinOp : Type 0 where
  pub join_type : Join
  pub join_predicate : CompType
  pub output_col : TableColumn

pub record SemiJoinOp : Type 0 where
  pub join_type : Join
  pub join_predicate : CompType
  pub output_col : TableColumn

pub record FilterOp : Type 0 where
  pub filter_type : CompType
  pub filter_args : List ScalarValue

pub record SortOp : Type 0 where
  pub column_list : List OrderDescription
  pub existing_idx : Option TableColumn

pub record MapOp : Type 0 where
  pub operator_type : ArithOp
  pub partner_val : PartnerValue

pub record SetOp : Type 0 where
  pub operation : RelOp

pub record SelectOp : Type 0 where
  pub result_idx : Option TableColumn
  pub result_headers : List Text

-- `IrData::OpInfo`, with a constructor for each alternative.
pub data OpInfo : Type 0 where
  monostate : OpInfo
  join_op : JoinOp → OpInfo
  semi_join_op : SemiJoinOp → OpInfo
  group_op : GroupOp → OpInfo
  fetch_op : FetchOp → OpInfo
  agg_op : AggOp → OpInfo
  filter_op : FilterOp → OpInfo
  sort_op : SortOp → OpInfo
  map_op : MapOp → OpInfo
  set_op : SetOp → OpInfo
  select_op : SelectOp → OpInfo
  mat_op : OpInfo

pub record IrData : Type 0 where
  pub input_columns : List TableColumn
  pub output_cols : List TableColumn
  pub outputs_pos_list : Bool
  pub outputs_mat_vals : Bool
  pub op_info : OpInfo

-- Include/ir/abstract_ir.hpp.
pub record AbstractSource : Type 0 where
  pub basetable : Text
  pub filters : List Text

pub record AbstractJoin : Type 0 where
  pub left_table : Text
  pub right_table : Text
  pub condition : Text

pub record AbstractAgg : Type 0 where
  pub agg_type : Text
  pub agg_mapping : Text
  pub agg_alias : Text
  pub grouping_cols : List Text

pub record AbstractSort : Type 0 where
  pub column_names : List Text
  pub aliases : List Text
  pub asc : List Bool

pub record AbstractResult : Type 0 where
  pub output_cols : List Text

-- `PlanNode::AbstractData`
pub data AbstractData : Type 0 where
  empty : AbstractData
  source : AbstractSource → AbstractData
  join : AbstractJoin → AbstractData
  agg : AbstractAgg → AbstractData
  sort : AbstractSort → AbstractData
  result : AbstractResult → AbstractData

-- `BaseType::PlanParams`
pub record PlanParams : Type 0 where
  pub base_table : Option Table
  pub filter_predicate : Option Text
  pub sort_keys : List Text
  pub parallel_workers : ℕ
  pub index : Text
  pub lookup_key : Option Text
  pub subplan_name : Option Text

-- `BaseType::JsonRawData`. Its estimates and measures are read by nothing in the program but the
-- printers, and are left out.
pub record JsonRawData : Type 0 where
  pub node_type : Text
  pub node_operator : Option Text
  pub sub_plan : Option Text
  pub plan_params : PlanParams

-- The data of a `PlanNode`. `apiData` is left out: it only points into `irData`.
pub record NodeData : Type 0 where
  pub raw_json : Option JsonRawData
  pub abstract_data : AbstractData
  pub ir_data : IrData

-- A plan tree: `null` is the null pointer, and `nil` and `cons` are the vector of children. The
-- passes modelled over it run before any node is shared.
mutual
  pub data Plan : Type 0 where
    null : Plan
    node : NodeData → Plans → Plan

  pub data Plans : Type 0 where
    nil : Plans
    cons : Plan → Plans → Plans
