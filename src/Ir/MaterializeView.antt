-- ===== src/Ir/MaterializeView.antt =====
-- `MaterializeView` of include/ir/ir_views.hpp.
use db_query_optimizer.Common.{Bool, [], ◌∷◌, not}
use db_query_optimizer.Base.{TableColumn}
use db_query_optimizer.Ir.{IrData, mat_op}

unfoldable pub create : TableColumn → TableColumn → TableColumn → Bool → IrData
create idx_col filter_col output_col outputs_pos_list = record {
  input_columns = idx_col ∷ filter_col ∷ [];
  output_cols = output_col ∷ [];
  outputs_pos_list = outputs_pos_list;
  outputs_mat_vals = not outputs_pos_list;
  op_info = mat_op;
}
