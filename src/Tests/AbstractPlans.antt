-- ===== src/Tests/AbstractPlans.antt =====
-- The plan of an abstract plan: a sum of products over the join of a filtered table and another.
use db_query_optimizer.Common.{Option, none, some, false, List, [], ◌∷◌, ◌≡◌, refl}
use db_query_optimizer.Common.Text.{
  Text, bytes, upper_byte, is_space, find, starts_with, text_eq, lower_byte, to_lower,
  contains_text, one_of,
}
use db_query_optimizer.Ir.{AbstractData, source, join, agg, Plan, Plans, node, nil, cons}
use db_query_optimizer.Optimizations.AggMove.Count.{IsReady}
use db_query_optimizer.TransformHelpers.{
  parse_join_condition, trim, to_upper, skip_spaces, drop_spaces, first_symbol, split_at,
  JoinCondition, parse_mapping, before_op, from_op, is_arith_op, mapping_of, Mapping,
}
use db_query_optimizer.TransformHelpers.ConditionParser.{ParsedCondition}
use db_query_optimizer.AstToIr.{fresh_ir, is_string, is_integer}
use db_query_optimizer.AbstractToIr.{abstract_to_ir, mapping_is_invalid, known_column}
use db_query_optimizer.Base.{make_column}
use db_query_optimizer.Catalog.{
  get_ssb_column_type, resolve_table, get_table_name, type_in_table, lineorder_type,
}
use db_query_optimizer.AbstractToIr.Ready.{abstract_to_ir-IsReady}
use db_query_optimizer.AbstractToIr.Sound.{fetched, sources}

abbrev plans : List Plan → Plans
plans [] = nil
plans (p ∷ ps) = cons p (plans ps)

abbrev abstract_node : AbstractData → List Plan → Plan
abstract_node a ps =
    node (record { raw_json = none; abstract_data = a; ir_data = fresh_ir }) (plans ps)

abbrev read_condition : Text → Option ParsedCondition
read_condition s =
    some (record { column = bytes "lo_quantity"; op = bytes "<"; arguments = bytes "25" ∷ [] })

abbrev summed_join : Plan
summed_join =
    abstract_node
      (agg (record {
        agg_type = bytes "sum";
        agg_mapping = bytes "lo_revenue * lo_discount";
        agg_alias = bytes "revenue";
        grouping_cols = [];
      }))
      (abstract_node
          (join (record {
            left_table = bytes "lineorder";
            right_table = bytes "customer";
            condition = bytes "lo_custkey = c_custkey";
          }))
          (abstract_node
              (source
                (record { basetable = bytes "lineorder"; filters = bytes "lo_quantity < 25" ∷ [] }))
              []
            ∷ abstract_node (source (record { basetable = bytes "customer"; filters = [] })) []
            ∷ [])
        ∷ [])

condition_lem :
    (c : JoinCondition) × (parse_join_condition (bytes "lo_custkey = c_custkey") ≡ some c)
unfolding parse_join_condition trim to_upper upper_byte skip_spaces drop_spaces is_space find
    starts_with first_symbol split_at
condition_lem = (_, refl)

abbrev product : Mapping
product = record { lhs = bytes "lo_revenue"; op = b'*'; rhs = bytes "lo_discount" }

product_is_read : parse_mapping (bytes "lo_revenue * lo_discount") ≡ some product
unfolding parse_mapping skip_spaces drop_spaces is_space before_op from_op is_arith_op mapping_of
product_is_read = refl

product_is_valid :
    mapping_is_invalid
      (known_column product.lhs).column_type
      (known_column product.rhs).column_type
      product.op
    ≡ false
unfolding mapping_is_invalid is_string is_integer known_column make_column get_ssb_column_type
    to_lower resolve_table get_table_name type_in_table lineorder_type contains_text find
    starts_with text_eq lower_byte one_of
product_is_valid = refl

abstract_to_ir-IsReady_example :
    (q : Plan) × (abstract_to_ir read_condition summed_join ≡ some q)
    × IsReady q
    × (fetched q ≡ sources summed_join)
abstract_to_ir-IsReady_example = abstract_to_ir-IsReady read_condition summed_join (
  (λ e. (product, product_is_read, product_is_valid), refl),
  ((condition_lem, ((((_, refl), tt), tt), ((tt, tt), tt))), tt),
)
