-- ===== src/Ir/GroupView.antt =====
-- `GroupView` of include/ir/ir_views.hpp. With an aggregation, the aggregated column is the last
-- input and its result the last output.
use db_query_optimizer.Common.{
  ℕ, Bool, true, false, Option, none, some, List, [], ◌∷◌, ◌++◌, length, replicate, if◌then◌else◌,
}
use db_query_optimizer.Common.Text.{Text, bytes}
use db_query_optimizer.Base.{TableColumn, type_integer, table_named, make_column}
use db_query_optimizer.Ir.{IrData, OpInfo, GroupOp, group_op}

-- `get_view_if<GroupView>`
unfoldable pub view_if : IrData → Option GroupOp
view_if d = elim d.op_info [ group_op op ↦ some op | _ ↦ none ]

-- `c.columnName += suffix`
abbrev pub rename_suffix : TableColumn → Text → TableColumn
rename_suffix c suffix = record c { column_name = c.column_name ++ suffix }

abbrev fresh_op : List TableColumn → Bool → OpInfo
fresh_op grouping_cols has_agg = group_op (record {
  sort_orders = replicate (length grouping_cols) true;
  has_agg = has_agg;
  store_extends = true;
})

-- `create(groupingCols, outputCol)`
unfoldable pub create : List TableColumn → TableColumn → IrData
create grouping_cols output_col = record {
  input_columns = grouping_cols;
  output_cols =
      output_col
      ∷ rename_suffix output_col (bytes "_srt")
      ∷ rename_suffix output_col (bytes "_clus")
      ∷ [];
  outputs_pos_list = true;
  outputs_mat_vals = true;
  op_info = fresh_op grouping_cols false;
}

-- `create(groupingCols, outputCol, aggCol, aggResultCol)`
unfoldable pub create_with_agg : List TableColumn → TableColumn → TableColumn → TableColumn → IrData
create_with_agg grouping_cols output_col agg_col agg_result_col = record {
  input_columns = grouping_cols ++ agg_col ∷ [];
  output_cols =
      output_col
      ∷ rename_suffix output_col (bytes "_srt")
      ∷ rename_suffix output_col (bytes "_clus")
      ∷ agg_result_col
      ∷ [];
  outputs_pos_list = true;
  outputs_mat_vals = true;
  op_info = fresh_op grouping_cols true;
}

-- `v.back()`
unfoldable pub back {ℓ} : {A : Type ℓ} → List A → Option A
back [] = none
back (x ∷ []) = some x
back (x ∷ y ∷ r) = back (y ∷ r)

-- `v.pop_back()`
unfoldable pub pop_back {ℓ} : {A : Type ℓ} → List A → List A
pop_back [] = []
pop_back (x ∷ []) = []
pop_back (x ∷ y ∷ r) = x ∷ pop_back (y ∷ r)

-- `aggCol()`: null without an aggregation
unfoldable pub agg_col : GroupOp → IrData → Option TableColumn
unfolding back
agg_col op d = if op.has_agg then back d.input_columns else none

-- `aggResultCol()`
unfoldable pub agg_result_col : GroupOp → IrData → Option TableColumn
unfolding back
agg_result_col op d = if op.has_agg then back d.output_cols else none

-- `setAgg(aggCol, aggResultCol)`
unfoldable pub set_agg : GroupOp → TableColumn → TableColumn → IrData → IrData
unfolding pop_back
set_agg op agg_col agg_result_col d =
    if op.has_agg
    then record d {
      input_columns = pop_back d.input_columns ++ agg_col ∷ [];
      output_cols = pop_back d.output_cols ++ agg_result_col ∷ [];
    }
    else record d {
      input_columns = d.input_columns ++ agg_col ∷ [];
      output_cols = d.output_cols ++ agg_result_col ∷ [];
      op_info = group_op (record op { has_agg = true });
    }

-- `removeAgg()`
unfoldable pub remove_agg : GroupOp → IrData → IrData
unfolding pop_back
remove_agg op d =
    if op.has_agg
    then record d {
      input_columns = pop_back d.input_columns;
      output_cols = pop_back d.output_cols;
      op_info = group_op (record op { has_agg = false });
    }
    else d

-- `gCol.table.name.empty() ? '?' : gCol.table.name[0]`
unfoldable pub table_prefix : TableColumn → ℕ
table_prefix c = elim c.table.name [ [] ↦ b'?' | b ∷ _ ↦ b ]

-- `generateOutColString`: a separator stands behind all columns but the last.
unfoldable pub out_col_string : List TableColumn → Text
unfolding table_prefix
out_col_string [] = []
out_col_string (c ∷ []) = table_prefix c ∷ b'.' ∷ c.column_name
out_col_string (c ∷ d ∷ r) =
    table_prefix c ∷ b'.' ∷ (c.column_name ++ b'_' ∷ out_col_string (d ∷ r))

-- `generateOutCol`
unfoldable pub generate_out_col : List TableColumn → TableColumn
unfolding out_col_string make_column
generate_out_col grouping_cols =
    make_column (table_named (bytes "GROUP")) (out_col_string grouping_cols) type_integer none
