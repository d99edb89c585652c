-- ===== src/Ir/JoinView.antt =====
-- `JoinView` of include/ir/ir_views.hpp. A view refers to an `IrData`. An accessor such as
-- `inputColumns[0]` of an empty vector is undefined behaviour, and `none` here.
use db_query_optimizer.Common.{true, false, Option, none, some, [], ◌∷◌, get_elem?}
use db_query_optimizer.Base.{TableColumn, CompType, Join}
use db_query_optimizer.Ir.{IrData, JoinOp, join_op}

-- `get_view_if<JoinView>`
unfoldable pub view_if : IrData → Option JoinOp
view_if d = elim d.op_info [ join_op op ↦ some op | _ ↦ none ]

unfoldable pub create : TableColumn → TableColumn → TableColumn → Join → CompType → IrData
create inner outer out join_type join_predicate = record {
  input_columns = inner ∷ outer ∷ [];
  output_cols = inner ∷ outer ∷ [];
  outputs_pos_list = true;
  outputs_mat_vals = false;
  op_info =
      join_op (record { join_type = join_type; join_predicate = join_predicate; output_col = out });
}

-- `inner()`
unfoldable pub inner : IrData → Option TableColumn
inner d = get_elem? d.input_columns 0

-- `outer()`
unfoldable pub outer : IrData → Option TableColumn
outer d = get_elem? d.input_columns 1

-- `innerOut()`
unfoldable pub inner_out : IrData → Option TableColumn
inner_out d = get_elem? d.output_cols 0

-- `outerOut()`
unfoldable pub outer_out : IrData → Option TableColumn
outer_out d = get_elem? d.output_cols 1
