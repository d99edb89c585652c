-- ===== src/Ir/MapView.antt =====
-- `MapView` of include/ir/ir_views.hpp.
use db_query_optimizer.Common.{true, false, [], ◌∷◌}
use db_query_optimizer.Base.{TableColumn, ArithOp}
use db_query_optimizer.Ir.{IrData, PartnerValue, partner_column, partner_scalar, map_op}

unfoldable pub create : TableColumn → ArithOp → PartnerValue → TableColumn → IrData
create column operator_type partner_val output_col = record {
  input_columns = column ∷ elim partner_val [ partner_column c ↦ c ∷ [] | partner_scalar _ ↦ [] ];
  output_cols = output_col ∷ [];
  outputs_pos_list = false;
  outputs_mat_vals = true;
  op_info = map_op (record { operator_type = operator_type; partner_val = partner_val });
}
