-- ===== src/Ir/SetOpView.antt =====
-- `SetOpView` of include/ir/ir_views.hpp.
use db_query_optimizer.Common.{true, false, [], ◌∷◌}
use db_query_optimizer.Base.{TableColumn, RelOp}
use db_query_optimizer.Ir.{IrData, set_op}

unfoldable pub create : TableColumn → TableColumn → TableColumn → RelOp → IrData
create inner outer output operation = record {
  input_columns = inner ∷ outer ∷ [];
  output_cols = output ∷ [];
  outputs_pos_list = true;
  outputs_mat_vals = false;
  op_info = set_op (record { operation = operation });
}
