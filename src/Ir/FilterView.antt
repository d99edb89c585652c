-- ===== src/Ir/FilterView.antt =====
-- `FilterView` of include/ir/ir_views.hpp.
use db_query_optimizer.Common.{true, false, Option, none, some, List, [], ◌∷◌, get_elem?}
use db_query_optimizer.Base.{TableColumn, CompType}
use db_query_optimizer.Ir.{IrData, ScalarValue, filter_op}

unfoldable pub create :
    TableColumn → CompType → Option TableColumn → List ScalarValue → TableColumn → IrData
create col1 filter_type col2 filter_args output_col = record {
  input_columns = col1 ∷ elim col2 [ none ↦ [] | some c ↦ c ∷ [] ];
  output_cols = output_col ∷ [];
  outputs_pos_list = true;
  outputs_mat_vals = false;
  op_info = filter_op (record { filter_type = filter_type; filter_args = filter_args });
}

-- `col1()`
unfoldable pub col1 : IrData → Option TableColumn
col1 d = get_elem? d.input_columns 0

-- `col2()`
unfoldable pub col2 : IrData → Option TableColumn
col2 d = get_elem? d.input_columns 1

-- `outputCol()`
unfoldable pub output_col : IrData → Option TableColumn
output_col d = get_elem? d.output_cols 0
