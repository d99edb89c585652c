-- ===== src/Tests/Items.antt =====
-- The work items of a join, a semi-join and a filter, and the API data of a sum moved into a group.
use db_query_optimizer.Common.{true, some, List, [], ◌∷◌, ◌+◌, ◌%◌, ◌^◌, ◌≡◌, refl, length, arith}
use db_query_optimizer.Base.{comp_eq, comp_lt}
use db_query_optimizer.Ir.{Plan, uint64_value, node, nil, cons}
use db_query_optimizer.Ir.GroupView
use db_query_optimizer.Ir.FetchView
use db_query_optimizer.Ir.Shape.{IsShapedPlan}
use db_query_optimizer.WorkItems.Messages.{ApiData, join, semi_join, filter}
use db_query_optimizer.WorkItems.Builder.{create_work_items}
use db_query_optimizer.WorkItems.Numbered.{dropped, AreNumbered, create_work_items-AreNumbered}
use db_query_optimizer.WorkItems.Api.{ApiPlan, ir_to_api_data}
use db_query_optimizer.WorkItems.Shaped.{Mirrors, ir_to_api_data-Mirrors}
use db_query_optimizer.Tests.Samples.{
  lo_custkey, lo_revenue, revenue, c_custkey, c_nation, plain_node,
}

abbrev three_nodes : List ApiData
three_nodes =
    filter (record {
      input_column = lo_revenue;
      output_column = lo_revenue;
      filter_type = comp_lt;
      filter_arg_vals = uint64_value 25 ∷ [];
    })
    ∷ semi_join (record {
      inner_column = c_custkey;
      outer_column = lo_custkey;
      i_output_column = c_custkey;
      o_output_column = lo_custkey;
      join_predicate = comp_eq;
    })
    ∷ join (record {
      inner_column = c_custkey;
      outer_column = lo_custkey;
      i_output_column = c_custkey;
      o_output_column = lo_custkey;
      join_predicate = comp_eq;
    })
    ∷ []

create_work_items-AreNumbered_example :
    AreNumbered (7 % 2 ^ 32) 0 (length three_nodes) (create_work_items three_nodes 7 41).0
    × (length (create_work_items three_nodes 7 41).0 + dropped three_nodes ≡ length three_nodes)
create_work_items-AreNumbered_example = create_work_items-AreNumbered three_nodes 7 41 (omega arith)

abbrev summed_group : Plan
summed_group =
    node (plain_node (GroupView.create_with_agg (c_nation ∷ []) c_nation lo_revenue revenue))
      (cons (node (plain_node (FetchView.create lo_revenue true)) nil) nil)

summed_group-IsShaped : IsShapedPlan summed_group
unfolding GroupView.create_with_agg FetchView.create
summed_group-IsShaped = ((refl, refl), (((refl, refl), tt), tt))

ir_to_api_data-Mirrors_example :
    (q : ApiPlan) × (ir_to_api_data summed_group ≡ some q) × Mirrors summed_group q
ir_to_api_data-Mirrors_example = ir_to_api_data-Mirrors summed_group summed_group-IsShaped (tt, tt)
