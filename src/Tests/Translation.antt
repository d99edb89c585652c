-- ===== src/Tests/Translation.antt =====
-- The plan of a union of two sums over filtered tables, and of a product of two texts.
use db_query_optimizer.Base.{type_string}
use db_query_optimizer.Common.{ℕ, Option, none, some, true, [], ◌≡◌, inl, inr, refl}
use db_query_optimizer.Common.Text.{
  Text, bytes, text_eq, contains_text, find, starts_with, lower_byte, to_lower,
}
use db_query_optimizer.Catalog.{get_ssb_column_type, resolve_table, type_in_table, key_or_string}
use db_query_optimizer.Ir.{Plan}
use db_query_optimizer.Optimizations.AggMove.Count.{IsReady}
use db_query_optimizer.Ir.Shape.{IsShaped, AllNodes}
use db_query_optimizer.Pipeline.{put_late_materialization_type, ClientConfiguration, optimize_ast}
use db_query_optimizer.Pipeline.Returns.{optimize_ast-returns}
use db_query_optimizer.Ast.{
  AstNode, null, node, set_operation_node, aggregate_clause_node, where_clause_node,
  table_base_node, map_node, AggregateClauseNode, MapNode,
}
use db_query_optimizer.AstToIr.{ast_to_ir}
use db_query_optimizer.AstToIr.Plain.{ast_to_ir-IsReady}
use db_query_optimizer.AstToIr.Sound.{Mirrors}
use db_query_optimizer.AstToIr.Refuses.{text_first, ast_to_ir-none}

abbrev no_number : Text → Option ℕ
no_number s = none

abbrev base : Text → AstNode
base name = node (table_base_node (record { table_name = name; table_alias = [] })) null null

abbrev quantity_filter : AstNode
quantity_filter =
    node
      (where_clause_node (record {
        table = bytes "lineorder";
        column = bytes "lo_quantity";
        operator_type = bytes "BETWEEN";
        table2 = [];
        column2 = [];
        value = bytes "26";
        value2 = bytes "35";
      }))
      (base (bytes "lineorder")) null

abbrev union_query : AstNode
union_query =
    node (set_operation_node (record { set_operation = bytes "UNION" })) quantity_filter
      (base (bytes "lineorder"))

abbrev sum_of_revenue : AggregateClauseNode
sum_of_revenue = record {
  aggregate_function = bytes "SUM";
  alias = bytes "revenue";
  table = bytes "lineorder";
  column = bytes "lo_revenue";
}

abbrev summed_union : AstNode
summed_union = node (aggregate_clause_node sum_of_revenue) union_query null

ast_to_ir-IsReady_example :
    (q : Plan) × (ast_to_ir no_number no_number summed_union ≡ some q)
    × Mirrors no_number no_number summed_union q
    × IsReady q
ast_to_ir-IsReady_example =
    ast_to_ir-IsReady no_number no_number summed_union
      (refl, ((tt, tt), (tt, (tt, tt, tt), tt), (tt, tt, tt)), tt)

abbrev name_times_revenue : MapNode
name_times_revenue = record {
  table1 = bytes "customer";
  column1 = bytes "c_name";
  table2 = bytes "lineorder";
  column2 = bytes "lo_revenue";
  operator_type = bytes "*";
  value = [];
}

abbrev bad_product : AstNode
bad_product =
    node (aggregate_clause_node sum_of_revenue)
      (node (map_node name_times_revenue) (base (bytes "lineorder")) null) null

name_is_text : get_ssb_column_type (bytes "customer") (bytes "c_name") ≡ type_string
unfolding get_ssb_column_type to_lower resolve_table type_in_table key_or_string contains_text find
    starts_with text_eq lower_byte
name_is_text = refl

ast_to_ir-none_example : ast_to_ir no_number no_number bad_product ≡ none
ast_to_ir-none_example =
    ast_to_ir-none no_number no_number bad_product
      (inr (inl (inl (name_times_revenue, refl, text_first name_is_text))))

abbrev pub all_passes : ClientConfiguration
all_passes = record {
  semi_joins = true;
  merge_subset_sort = true;
  mat_type = put_late_materialization_type;
  grand_child_opt = true;
}

optimize_ast-returns_example :
    (q : Plan) × (optimize_ast no_number no_number all_passes summed_union ≡ some q)
    × AllNodes IsShaped q
optimize_ast-returns_example =
    optimize_ast-returns no_number no_number all_passes summed_union
      (refl, ((tt, tt), (tt, (tt, tt, tt), tt), (tt, tt, tt)), tt)
