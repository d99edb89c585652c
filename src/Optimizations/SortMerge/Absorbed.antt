-- ===== src/Optimizations/SortMerge/Absorbed.antt =====
-- What a group is after it took a sort over.
use db_query_optimizer.Common.{true, some, List, ◌++◌, map, ◌≡◌, ap, ◌∙◌}
use db_query_optimizer.Base.{TableColumn, column_lt}
use db_query_optimizer.Base.Sets.{contains}
use db_query_optimizer.Ir.{IrData, GroupOp, SortOp, group_op, sort_op}
use db_query_optimizer.Optimizations.SortMerge.{remaining_cols, merged_group, absorb_sort}
use db_query_optimizer.Optimizations.SortMerge.Columns.{merged_group-same_columns}
use db_query_optimizer.Optimizations.SortMerge.Keeps.{absorb_sort_cases}

-- `d` is the group `child` with the sort of `parent` in it.
pub record TookOver (parent child d : IrData) : Type 0 where
  pub sort : SortOp
  pub group : GroupOp
  pub was_sort : parent.op_info ≡ sort_op sort
  pub was_group : child.op_info ≡ group_op group
  pub rest : List TableColumn
  pub columns : d.input_columns ≡ parent.input_columns ++ rest
  pub directions :
      d.op_info
      ≡ group_op (record group {
        sort_orders = map (λ o. o.order_type) sort.column_list ++ map (λ _. true) rest;
      })
  pub outputs : d.output_cols ≡ child.output_cols
  pub same_set :
      (c : TableColumn)
      → contains column_lt c d.input_columns ≡ contains column_lt c child.input_columns

-- A group takes a sort over only with the sort's columns first, in the sort's order and with its
-- directions; it then groups by the same set of columns as before and has the same outputs.
pub absorb_sort-TookOver :
    (parent child d : IrData) → absorb_sort parent child ≡ some d → TookOver parent child d
unfolding merged_group
absorb_sort-TookOver parent child d h =
    let (sort, group, es, eg, sub, ed) = absorb_sort_cases parent child d h in
    record {
      sort = sort;
      group = group;
      was_sort = es;
      was_group = eg;
      rest = remaining_cols parent.input_columns child.input_columns;
      columns = ap (λ (t : IrData). t.input_columns) ed;
      directions = ap (λ (t : IrData). t.op_info) ed;
      outputs = ap (λ (t : IrData). t.output_cols) ed;
      same_set = λ c.
          ap (λ (t : IrData). contains column_lt c t.input_columns) ed
          ∙ merged_group-same_columns parent sort child group sub c;
    }
