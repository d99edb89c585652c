-- ===== src/Ir/SortOrderView.antt =====
-- `SortOrderView` of include/ir/ir_views.hpp.
use db_query_optimizer.Common.{true, false, Option, none, some, List, [], ◌∷◌, ◌++◌, map}
use db_query_optimizer.Common.Text.{bytes}
use db_query_optimizer.Base.{TableColumn, OrderDescription, type_integer, table_named, make_column}
use db_query_optimizer.Ir.{IrData, SortOp, sort_op}
use db_query_optimizer.Ir.GroupView.{out_col_string}

-- `get_view_if<SortOrderView>`
unfoldable pub view_if : IrData → Option SortOp
view_if d = elim d.op_info [ sort_op op ↦ some op | _ ↦ none ]

unfoldable pub create : List OrderDescription → TableColumn → Option TableColumn → IrData
create order_descriptions idx_output existing_idx = record {
  input_columns =
      map (λ o. o.column) order_descriptions ++ elim existing_idx [ none ↦ [] | some c ↦ c ∷ [] ];
  output_cols = idx_output ∷ [];
  outputs_pos_list = true;
  outputs_mat_vals = false;
  op_info = sort_op (record { column_list = order_descriptions; existing_idx = existing_idx });
}

-- `generateOutCol`. Its `generateOutColString` has the text of the one of `GroupView`.
unfoldable pub generate_out_col : List TableColumn → TableColumn
unfolding out_col_string make_column
generate_out_col sort_cols =
    make_column (table_named (bytes "SORT")) (out_col_string sort_cols) type_integer none
