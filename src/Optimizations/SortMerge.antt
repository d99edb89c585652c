-- ===== src/Optimizations/SortMerge.antt =====
-- `mergeSortIntoGroupIfSubset` of src/ir_optimizations/ir_optimizations.cpp: a sort above a group
-- becomes the sort order of the group. The source's children are never null: a null one is passed
-- over here.
pub mod Columns
pub mod Absorbed
pub mod Keeps
use db_query_optimizer.Common.{
  Bool, true, false, not, Option, none, some, List, [], ◌++◌, map, if◌then◌else◌, all, keep_if,
}
use db_query_optimizer.Base.{TableColumn, column_lt}
use db_query_optimizer.Base.Sets.{contains, insert_all}
use db_query_optimizer.Ir.{
  IrData, GroupOp, SortOp, NodeData, Plan, Plans, null, node, nil, cons, group_op,
}
use db_query_optimizer.Ir.GroupView
use db_query_optimizer.Ir.SortOrderView

-- `std::set<TableColumn>(v.begin(), v.end())`
unfoldable pub column_set : List TableColumn → List TableColumn
column_set cols = insert_all column_lt cols []

-- Every sort column is a grouping column.
unfoldable pub is_subset : List TableColumn → List TableColumn → Bool
is_subset sort_inputs group_inputs =
    all (λ c. contains column_lt c (column_set group_inputs)) sort_inputs

-- The grouping columns that are no sort columns, in their order.
unfoldable pub remaining_cols : List TableColumn → List TableColumn → List TableColumn
remaining_cols sort_inputs group_inputs =
    keep_if (λ c. not (contains column_lt c (column_set sort_inputs))) group_inputs

-- The group after the sort is merged into it: the sort's columns and directions come first.
unfoldable pub merged_group : IrData → SortOp → IrData → GroupOp → IrData
merged_group sort_data sort group_data group = record group_data {
  input_columns =
      sort_data.input_columns ++ remaining_cols sort_data.input_columns group_data.input_columns;
  op_info = group_op (record group {
    sort_orders =
        map (λ o. o.order_type) sort.column_list
        ++ map (λ _. true) (remaining_cols sort_data.input_columns group_data.input_columns);
  });
}

-- The child's data after the test of one child: `none` if the node is no sort, the child no group,
-- or the sort's columns no subset.
unfoldable pub absorb_sort : IrData → IrData → Option IrData
absorb_sort parent child = elim (SortOrderView.view_if parent) [
  | none ↦ none
  | some sort ↦ elim (GroupView.view_if child) [
    | none ↦ none
    | some group ↦
        if is_subset parent.input_columns child.input_columns
        then some (merged_group parent sort child group)
        else none
  ]
]

unfoldable pub after_absorb : IrData → IrData → IrData
after_absorb parent child = elim (absorb_sort parent child) [ none ↦ child | some d ↦ d ]

-- `*node_ptr = child`: the last child that took the sort over, after its own recursion.
unfoldable pub successor : IrData → Plans → Plans → Option Plan
successor parent nil _ = none
successor parent (cons p ps) nil = none
successor parent (cons null ps) (cons q qs) = successor parent ps qs
successor parent (cons (node d cs) ps) (cons q qs) =
    let later = successor parent ps qs in
    elim later [
      | some r ↦ some r
      | none ↦ elim (absorb_sort parent d.ir_data) [ none ↦ none | some _ ↦ some q ]
    ]

-- What stands in the node's place: the node itself, unless a child took its sort over.
unfoldable pub in_place_of : NodeData → Plans → Plans → Plan
in_place_of d before after = elim (successor d.ir_data before after) [
  | none ↦ node d after
  | some q ↦ q
]

-- The children of a node with the data `parent`, after the test of each and the recursion.
unfoldable pub merge_children : IrData → Plans → Plans
merge_children parent nil = nil
merge_children parent (cons null ps) = cons null (merge_children parent ps)
merge_children parent (cons (node d cs) ps) =
    cons
      (in_place_of (record d { ir_data = after_absorb parent d.ir_data }) cs
        (merge_children (after_absorb parent d.ir_data) cs))
      (merge_children parent ps)

unfoldable pub merge_sort_into_group : Plan → Plan
merge_sort_into_group null = null
merge_sort_into_group (node d cs) = in_place_of d cs (merge_children d.ir_data cs)
