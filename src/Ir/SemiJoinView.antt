-- ===== src/Ir/SemiJoinView.antt =====
-- `SemiJoinView` of include/ir/ir_views.hpp.
use db_query_optimizer.Common.{true, false, Option, none, some, List, [], ◌∷◌, ◌>>=◌}
use db_query_optimizer.Base.{TableColumn, CompType, Join}
use db_query_optimizer.Ir.{IrData, join_op, semi_join_op}

unfoldable pub create : TableColumn → TableColumn → TableColumn → Join → CompType → IrData
create inner outer out join_type join_predicate = record {
  input_columns = inner ∷ outer ∷ [];
  output_cols = inner ∷ outer ∷ [];
  outputs_pos_list = true;
  outputs_mat_vals = false;
  op_info =
      semi_join_op
        (record { join_type = join_type; join_predicate = join_predicate; output_col = out });
}

-- `create(IrData&)`: the semi-join of a join. `std::get<JoinOp>` throws on any other data.
unfoldable pub of_join : IrData → Option IrData
of_join d = elim d.op_info [
  | join_op op ↦ some (record {
    input_columns = d.input_columns;
    output_cols = d.output_cols;
    outputs_pos_list = true;
    outputs_mat_vals = false;
    op_info = semi_join_op (record {
      join_type = op.join_type;
      join_predicate = op.join_predicate;
      output_col = op.output_col;
    });
  })
  | _ ↦ none
]

-- `std::swap(v[0], v[1])`
unfoldable pub swap_first {ℓ} : {A : Type ℓ} → List A → Option (List A)
swap_first [] = none
swap_first (x ∷ []) = none
swap_first (x ∷ y ∷ r) = some (y ∷ x ∷ r)

-- `std::swap(inner(), outer())` and `std::swap(innerOut(), outerOut())`
unfoldable pub swap_sides : IrData → Option IrData
unfolding swap_first
swap_sides d = do
  inputs ← swap_first d.input_columns
  outputs ← swap_first d.output_cols
  some (record d { input_columns = inputs; output_cols = outputs })
