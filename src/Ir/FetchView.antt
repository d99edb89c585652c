-- ===== src/Ir/FetchView.antt =====
-- `FetchView` of include/ir/ir_views.hpp.
use db_query_optimizer.Common.{Bool, true, false, Option, none, some, [], ◌∷◌, get_elem?}
use db_query_optimizer.Base.{TableColumn}
use db_query_optimizer.Ir.{IrData, fetch_op, FetchOp}

-- `get_view_if<FetchView>`
unfoldable pub view_if : IrData → Option FetchOp
view_if d = elim d.op_info [ fetch_op op ↦ some op | _ ↦ none ]

unfoldable pub create : TableColumn → Bool → IrData
create input_col was_table_base_node = record {
  input_columns = input_col ∷ [];
  output_cols = input_col ∷ [];
  outputs_pos_list = false;
  outputs_mat_vals = true;
  op_info = fetch_op (record { was_table_base_node = was_table_base_node });
}

-- `inputCol()`
unfoldable pub input_col : IrData → Option TableColumn
input_col d = get_elem? d.input_columns 0
