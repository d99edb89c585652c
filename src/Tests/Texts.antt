-- ===== src/Tests/Texts.antt =====
-- The readers of texts, at samples.
use db_query_optimizer.Common.{none, some, [], ◌∷◌, ◌++◌, ◌≡◌, refl, all}
use db_query_optimizer.Common.Text.{bytes, is_space, find, starts_with, upper_byte}
use db_query_optimizer.TransformHelpers.{
  trim, is_arith_op, contains_arith_map_op, parse_mapping, parse_join_condition, to_upper,
}
use db_query_optimizer.TransformHelpers.Trim.{starts_word, ends_word, is_blank, trim_lem}
use db_query_optimizer.TransformHelpers.ReadsMapping.{parse_mapping_lem, parse_mapping-none}
use db_query_optimizer.TransformHelpers.ReadsCondition.{
  has_byte, HasNoSymbol, less_eq, parse_join_condition_lem,
}

trim_lem_example : trim (bytes " " ++ (bytes "a b" ++ bytes "  ")) ≡ bytes "a b"
unfolding is_blank all is_space starts_word ends_word
trim_lem_example = trim_lem (bytes " ") (bytes "a b") (bytes "  ") refl refl refl refl

parse_mapping_lem_example :
    parse_mapping (
      bytes " "
      ++ (bytes "lo_revenue" ++ (bytes " " ++ b'-' ∷ (bytes " " ++ (bytes "lo_supplycost" ++ [])))))
    ≡ some (record { lhs = bytes "lo_revenue"; op = b'-'; rhs = bytes "lo_supplycost" })
unfolding is_blank all is_space starts_word ends_word contains_arith_map_op is_arith_op
parse_mapping_lem_example =
    parse_mapping_lem (bytes " ") (bytes "lo_revenue") (bytes " ") (bytes " ")
      (bytes "lo_supplycost") [] b'-' refl refl refl refl refl refl refl refl refl refl

parse_mapping-none_example : parse_mapping (bytes "lo_revenue") ≡ none
unfolding contains_arith_map_op is_arith_op
parse_mapping-none_example = parse_mapping-none (bytes "lo_revenue") refl

quantity_no_symbol : HasNoSymbol (bytes "lo_quantity")
unfolding has_byte
quantity_no_symbol = record { no_lt = refl; no_gt = refl; no_eq = refl; no_not = refl }

number_no_symbol : HasNoSymbol (bytes "25")
unfolding has_byte
number_no_symbol = record { no_lt = refl; no_gt = refl; no_eq = refl; no_not = refl }

parse_join_condition_lem_example :
    parse_join_condition (
      []
      ++ (((bytes "lo_quantity" ++ bytes " ") ++ (bytes "<=" ++ (bytes " " ++ bytes "25")))
          ++ bytes " "))
    ≡ some (record { left = bytes "lo_quantity"; right = bytes "25"; op = bytes "<=" })
unfolding is_blank all is_space starts_word ends_word to_upper upper_byte find starts_with
parse_join_condition_lem_example =
    parse_join_condition_lem [] (bytes "lo_quantity") (bytes " ") (bytes "<=") (bytes " ")
      (bytes "25") (bytes " ") refl refl refl refl refl refl quantity_no_symbol less_eq refl refl
      number_no_symbol refl refl
