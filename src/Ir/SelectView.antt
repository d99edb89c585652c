-- ===== src/Ir/SelectView.antt =====
-- `SelectView` of include/ir/ir_views.hpp.
use db_query_optimizer.Common.{true, false, Option, none, some, List, [], ◌∷◌, map}
use db_query_optimizer.Common.Text.{Text}
use db_query_optimizer.Base.{TableColumn}
use db_query_optimizer.Ir.{IrData, select_op}

-- `resCol.alias.value_or(resCol.columnName)`
unfoldable pub header : TableColumn → Text
header c = elim c.alias [ none ↦ c.column_name | some a ↦ a ]

-- The file name is not stored by the source.
unfoldable pub create : List TableColumn → Option TableColumn → List Text → IrData
unfolding header
create result_cols result_idx result_headers = record {
  input_columns = result_cols;
  output_cols = result_cols;
  outputs_pos_list = false;
  outputs_mat_vals = true;
  op_info = select_op (record {
    result_idx = result_idx;
    result_headers = elim result_headers [ [] ↦ map header result_cols | h ∷ hs ↦ h ∷ hs ];
  });
}
