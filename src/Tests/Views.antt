-- ===== src/Tests/Views.antt =====
-- Setting and removing the aggregation of a group.
use db_query_optimizer.Common.{true, false, some, [], ◌∷◌, ◌≡◌, refl}
use db_query_optimizer.Ir.{IrData, GroupOp, group_op}
use db_query_optimizer.Ir.GroupView
use db_query_optimizer.Ir.Shape.{IsShaped, set_agg-IsShaped, agg_col-set_agg, remove_agg-set_agg}
use db_query_optimizer.Tests.Samples.{lo_custkey, lo_revenue, revenue, c_nation}

abbrev nation_group : GroupOp
nation_group = record { sort_orders = true ∷ true ∷ []; has_agg = false; store_extends = true }

abbrev summed_group : GroupOp
summed_group = record { sort_orders = true ∷ true ∷ []; has_agg = true; store_extends = true }

abbrev group_data : IrData
group_data = GroupView.create (c_nation ∷ lo_custkey ∷ []) c_nation

is_nation_group : group_data.op_info ≡ group_op nation_group
unfolding GroupView.create
is_nation_group = refl

is_summed_group :
    (GroupView.set_agg nation_group lo_revenue revenue group_data).op_info ≡ group_op summed_group
unfolding GroupView.create GroupView.set_agg
is_summed_group = refl

set_agg-IsShaped_example : IsShaped (GroupView.set_agg nation_group lo_revenue revenue group_data)
unfolding GroupView.create
set_agg-IsShaped_example =
    set_agg-IsShaped group_data nation_group lo_revenue revenue is_nation_group (refl, refl)

agg_col-set_agg_example :
    (GroupView.agg_col summed_group (GroupView.set_agg nation_group lo_revenue revenue group_data)
      ≡ some lo_revenue)
    × (GroupView.agg_result_col summed_group
          (GroupView.set_agg nation_group lo_revenue revenue group_data)
        ≡ some revenue)
agg_col-set_agg_example =
    agg_col-set_agg group_data nation_group summed_group lo_revenue revenue is_nation_group
      is_summed_group

remove_agg-set_agg_example :
    GroupView.remove_agg summed_group (GroupView.set_agg nation_group lo_revenue revenue group_data)
    ≡ group_data
remove_agg-set_agg_example =
    remove_agg-set_agg group_data nation_group summed_group lo_revenue revenue is_nation_group refl
      is_summed_group
