-- ===== src/Tests/Passes.antt =====
-- The passes over the plan of a small star query.
use db_query_optimizer.Common.{true, false, none, some, [], ◌∷◌, ◌≡◌, refl, all, keep_if}
use db_query_optimizer.Common.Text.{bytes, text_eq, text_lt}
use db_query_optimizer.Base.{TableColumn, OrderDescription, comp_eq, agg_sum, inner_join, column_lt}
use db_query_optimizer.Base.Sets.{contains, insert, insert_all}
use db_query_optimizer.Ir.{IrData, Plan, node, nil, cons, group_op}
use db_query_optimizer.Ir.JoinView
use db_query_optimizer.Ir.FetchView
use db_query_optimizer.Ir.GroupView
use db_query_optimizer.Ir.AggView
use db_query_optimizer.Ir.SortOrderView
use db_query_optimizer.Ir.Shape.{IsShapedPlan, AllNodes}
use db_query_optimizer.PostProcessing.{ensure_correct_column_setup, no_aliases}
use db_query_optimizer.PostProcessing.Scopes.{scoped_plan}
use db_query_optimizer.PostProcessing.Scopes.Applied.{ensure_correct_column_setup-scoped_plan}
use db_query_optimizer.Ir.SelectView
use db_query_optimizer.Optimizations.SemiJoin.{place_semi_joins}
use db_query_optimizer.Optimizations.SemiJoin.Sound.{Placed, place_semi_joins-Placed}
use db_query_optimizer.Optimizations.SortMerge.{
  absorb_sort, is_subset, column_set, remaining_cols, merged_group, merge_sort_into_group,
}
use db_query_optimizer.Optimizations.SortMerge.Keeps.{IsPlain, merge_sort-IsPlain}
use db_query_optimizer.Optimizations.SortMerge.Absorbed.{TookOver, absorb_sort-TookOver}
use db_query_optimizer.Optimizations.AggMove.Count.{IsReady}
use db_query_optimizer.Optimizations.AggMove.Conserved.{Moved, move_agg-Moved}
use db_query_optimizer.Tests.Samples.{
  lineorder, lo_custkey, lo_revenue, revenue, c_custkey, c_nation, plain_node, column_of,
}

abbrev fetch : TableColumn → Plan
fetch c = node (plain_node (FetchView.create c true)) nil

abbrev star_join : Plan
star_join =
    node (plain_node (JoinView.create c_custkey lo_custkey lo_custkey inner_join comp_eq))
      (cons (fetch c_custkey) (cons (fetch lo_custkey) nil))

star_join-IsShaped : IsShapedPlan star_join
unfolding JoinView.create FetchView.create
star_join-IsShaped = ((refl, refl), (((refl, refl), tt), (((refl, refl), tt), tt)))

place_semi_joins-Placed_example :
    (q : Plan) × (place_semi_joins star_join (lineorder ∷ []) ≡ some q)
    × Placed star_join (lineorder ∷ []) q
    × IsShapedPlan q
place_semi_joins-Placed_example =
    place_semi_joins-Placed star_join (lineorder ∷ []) star_join-IsShaped

-- A group by nation over the sum of the revenue over the join.
abbrev group_data : IrData
group_data = GroupView.create (c_nation ∷ lo_custkey ∷ []) c_nation

abbrev grouped_sum : Plan
grouped_sum = node (plain_node group_data) (
    cons
      (node (plain_node (AggView.create lo_revenue revenue agg_sum)) (cons (fetch lo_revenue) nil))
      nil)

grouped_sum-IsReady : IsReady grouped_sum
unfolding GroupView.create AggView.create FetchView.create
grouped_sum-IsReady =
    (((refl, refl), refl), tt, ((((refl, refl), tt), refl, ((((refl, refl), tt), tt, tt), tt)), tt))

move_agg-Moved_example : Moved grouped_sum
move_agg-Moved_example = move_agg-Moved grouped_sum grouped_sum-IsReady

-- A sort by the nation above that group.
abbrev by_nation : OrderDescription
by_nation = record { column = c_nation; order_type = false; null_ordering = false }

abbrev sort_data : IrData
sort_data = SortOrderView.create (by_nation ∷ []) c_nation none

abbrev sorted_group : Plan
sorted_group =
    node (plain_node sort_data)
      (cons (node (plain_node group_data) (cons (fetch c_nation) nil)) nil)

sorted_group-IsPlain : AllNodes IsPlain sorted_group
unfolding GroupView.create SortOrderView.create FetchView.create
sorted_group-IsPlain =
    (((refl, refl), refl), ((((refl, refl), refl), ((((refl, refl), tt), tt), tt)), tt))

merge_sort-IsPlain_example : AllNodes IsPlain (merge_sort_into_group sorted_group)
merge_sort-IsPlain_example = merge_sort-IsPlain sorted_group sorted_group-IsPlain

abbrev merged_data : IrData
merged_data = record group_data {
  op_info =
      group_op (record { sort_orders = false ∷ true ∷ []; has_agg = false; store_extends = true });
}

absorbs : absorb_sort sort_data group_data ≡ some merged_data
unfolding absorb_sort column_set insert_all insert contains text_eq text_lt SortOrderView.view_if
    GroupView.view_if is_subset all column_lt merged_group remaining_cols keep_if
    SortOrderView.create GroupView.create
absorbs = refl

absorb_sort-TookOver_example : TookOver sort_data group_data merged_data
absorb_sort-TookOver_example = absorb_sort-TookOver sort_data group_data merged_data absorbs

-- A selection of the revenue as the total, sorted by the total, over a selection of its own.
abbrev total : TableColumn
total = column_of lineorder (bytes "total")

abbrev by_total : OrderDescription
by_total = record { column = total; order_type = true; null_ordering = false }

abbrev inner_query : Plan
inner_query = node (plain_node (SelectView.create (revenue ∷ []) none [])) (cons grouped_sum nil)

abbrev total_query : Plan
total_query =
    node
      (plain_node
        (SelectView.create (record revenue { alias = some (bytes "total") } ∷ []) none []))
      (cons
        (node (plain_node (SortOrderView.create (by_total ∷ []) c_nation none))
          (cons inner_query nil))
        nil)

ensure_correct_column_setup-scoped_plan_example :
    ensure_correct_column_setup total_query no_aliases ≡ scoped_plan [] total_query
ensure_correct_column_setup-scoped_plan_example =
    ensure_correct_column_setup-scoped_plan total_query
