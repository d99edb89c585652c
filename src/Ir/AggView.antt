-- ===== src/Ir/AggView.antt =====
-- `AggView` of include/ir/ir_views.hpp.
use db_query_optimizer.Common.{true, false, Option, none, some, [], ◌∷◌, get_elem?}
use db_query_optimizer.Base.{TableColumn, AggFunc}
use db_query_optimizer.Ir.{IrData, agg_op, AggOp}

-- `get_view_if<AggView>`
unfoldable pub view_if : IrData → Option AggOp
view_if d = elim d.op_info [ agg_op op ↦ some op | _ ↦ none ]

unfoldable pub create : TableColumn → TableColumn → AggFunc → IrData
create input_col output_col agg_func = record {
  input_columns = input_col ∷ [];
  output_cols = output_col ∷ [];
  outputs_pos_list = false;
  outputs_mat_vals = true;
  op_info = agg_op (record { agg_func = agg_func });
}

-- `colToAgg()`
unfoldable pub col_to_agg : IrData → Option TableColumn
col_to_agg d = get_elem? d.input_columns 0

-- `aggResultCol()`
unfoldable pub agg_result_col : IrData → Option TableColumn
agg_result_col d = get_elem? d.output_cols 0
