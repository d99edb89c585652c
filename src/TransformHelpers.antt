-- ===== src/TransformHelpers.antt =====
-- src/ir/transform_helpers.cpp: the readers of conditions, mappings and names in a plan's texts.
-- A result of `none` is a thrown `std::invalid_argument` where the source throws. The output on
-- the console is left out.
pub mod Trim
pub mod ReadsMapping
pub mod ReadsCondition
pub mod ConditionParser
use db_query_optimizer.Common.{
  ℕ, zero, suc, ◌+◌, Bool, true, false, ◌&&◌, ◌||◌, not, Option, none, some, List, [], ◌∷◌, ◌++◌,
  map, if◌then◌else◌, ◌==◌, ◌>>=◌, take, drop, length, keep_if,
}
use db_query_optimizer.Common.Text.{
  Text, bytes, text_eq, find, contains_text, upper_byte, is_space, one_of,
}
use db_query_optimizer.Base.{
  ColumnType, type_integer, type_float, CompType, comp_lt, comp_le, comp_eq, comp_ge, comp_gt,
  comp_ne, comp_between, comp_in, AggFunc, agg_count, agg_sum, agg_min, agg_max, agg_avg, RelOp,
  rel_union, rel_intersection, rel_negation, ArithOp, arith_add, arith_sub, arith_mul, arith_div,
  arith_mod, Join, inner_join, left_outer_join, right_outer_join, full_outer_join,
}
use db_query_optimizer.Ir.{ScalarValue, uint64_value, float_value, string_value}

-- `toUpper`, and `std::transform(..., ::toupper)`
unfoldable pub to_upper : Text → Text
unfolding upper_byte
to_upper s = map upper_byte s

-- `removeAllWhitespace`
unfoldable pub remove_all_whitespace : Text → Text
unfolding keep_if is_space
remove_all_whitespace s = keep_if (λ c. not (is_space c)) s

-- `mapStringToCompType`
unfoldable pub map_string_to_comp_type : Text → CompType
unfolding text_eq one_of
map_string_to_comp_type op =
    if one_of (bytes "EQUAL" ∷ bytes "=" ∷ []) op
    then comp_eq
    else if one_of (bytes "LESSTHEN" ∷ bytes "<" ∷ []) op
    then comp_lt
    else if one_of (bytes "LESSTHENEQ" ∷ bytes "<=" ∷ []) op
    then comp_le
    else if one_of (bytes "GREATERTHEN" ∷ bytes ">" ∷ []) op
    then comp_gt
    else if one_of (bytes "GREATERTHENEQ" ∷ bytes ">=" ∷ []) op
    then comp_ge
    else if one_of (bytes "NOTEQUAL" ∷ bytes "!=" ∷ bytes "<>" ∷ []) op
    then comp_ne
    else if text_eq op (bytes "BETWEEN")
    then comp_between
    else if text_eq op (bytes "IN")
    then comp_in
    else comp_eq

-- `mapStringToJoinType`
unfoldable pub map_string_to_join_type : Text → Join
unfolding to_upper contains_text
map_string_to_join_type join_type =
    let upper = to_upper join_type in
    if contains_text upper (bytes "LEFT")
    then left_outer_join
    else if contains_text upper (bytes "RIGHT")
    then right_outer_join
    else if contains_text upper (bytes "FULL")
    then full_outer_join
    else inner_join

-- `mapStringToRelOp`
unfoldable pub map_string_to_rel_op : Text → RelOp
unfolding to_upper text_eq
map_string_to_rel_op op =
    let upper = to_upper op in
    if text_eq upper (bytes "INTERSECT")
    then rel_intersection
    else if text_eq upper (bytes "EXCEPT")
    then rel_negation
    else rel_union

-- `mapStringToAggFunc`
unfoldable pub map_string_to_agg_func : Text → Option AggFunc
unfolding to_upper text_eq
map_string_to_agg_func [] = none
map_string_to_agg_func (c ∷ func) =
    let upper = to_upper (c ∷ func) in
    if text_eq upper (bytes "SUM")
    then some agg_sum
    else if text_eq upper (bytes "COUNT")
    then some agg_count
    else if text_eq upper (bytes "MIN")
    then some agg_min
    else if text_eq upper (bytes "MAX")
    then some agg_max
    else if text_eq upper (bytes "AVG")
    then some agg_avg
    else none

-- `mapStringToArithOp`
unfoldable pub map_string_to_arith_op : Text → ArithOp
unfolding text_eq
map_string_to_arith_op op =
    if text_eq op (bytes "+")
    then arith_add
    else if text_eq op (bytes "-")
    then arith_sub
    else if text_eq op (bytes "*")
    then arith_mul
    else if text_eq op (bytes "/")
    then arith_div
    else if text_eq op (bytes "%")
    then arith_mod
    else arith_add

-- `parseValueByType`: `std::stoull` and `std::stof` are parameters, `none` where they throw.
unfoldable pub parse_value_by_type :
    (Text → Option ℕ) → (Text → Option ℕ) → Text → ColumnType → ScalarValue
parse_value_by_type stoull stof val column_type = elim column_type [
  | type_integer ↦ elim (stoull val) [ some n ↦ uint64_value n | none ↦ uint64_value 0 ]
  | type_float ↦ elim (stof val) [ some x ↦ float_value x | none ↦ float_value 0 ]
  | _ ↦ string_value val
]

-- The loops over the white space at the start and at the end of a text.
unfoldable pub skip_spaces : Text → Text
unfolding is_space
skip_spaces [] = []
skip_spaces (c ∷ s) = let rest = skip_spaces s in if is_space c then rest else c ∷ s

unfoldable pub drop_spaces : Text → Text
unfolding is_space
drop_spaces [] = []
drop_spaces (c ∷ s) = elim (drop_spaces s) [
  | [] ↦ if is_space c then [] else c ∷ []
  | d ∷ t ↦ c ∷ d ∷ t
]

-- `trim`
unfoldable pub trim : Text → Text
unfolding skip_spaces drop_spaces
trim s = drop_spaces (skip_spaces s)

-- `input[i] == '+' || ...`
unfoldable pub is_arith_op : ℕ → Bool
is_arith_op c = (c == b'+') || (c == b'-') || (c == b'*') || (c == b'/') || (c == b'%')

-- `containsArithMapOp`
unfoldable pub contains_arith_map_op : Text → Bool
unfolding is_arith_op
contains_arith_map_op [] = false
contains_arith_map_op (c ∷ s) = is_arith_op c || contains_arith_map_op s

-- The loop over the left operand: what stands before the first operator, and what is left.
unfoldable pub before_op : Text → Text
unfolding is_arith_op
before_op [] = []
before_op (c ∷ s) = let rest = before_op s in if is_arith_op c then [] else c ∷ rest

unfoldable pub from_op : Text → Text
unfolding is_arith_op
from_op [] = []
from_op (c ∷ s) = let rest = from_op s in if is_arith_op c then c ∷ s else rest

-- `{lhs, op, rhs}`
pub record Mapping : Type 0 where
  pub lhs : Text
  pub op : ℕ
  pub rhs : Text

-- The check that both operands are there.
unfoldable pub mapping_of : Text → ℕ → Text → Option Mapping
mapping_of [] op rhs = none
mapping_of (c ∷ lhs) op [] = none
mapping_of (c ∷ lhs) op (d ∷ rhs) = some (record { lhs = c ∷ lhs; op = op; rhs = d ∷ rhs })

-- `parseMapping`
unfoldable pub parse_mapping : Text → Option Mapping
unfolding skip_spaces drop_spaces before_op from_op mapping_of
parse_mapping input =
    let start = skip_spaces input in
    elim (from_op start) [
      | [] ↦ none
      | op ∷ rest ↦ mapping_of (drop_spaces (before_op start)) op (drop_spaces (skip_spaces rest))
    ]

-- `{left, right, op}`
pub record JoinCondition : Type 0 where
  pub left : Text
  pub right : Text
  pub op : Text

-- The two sides of an operator of the given length at `pos`.
unfoldable pub split_at : Text → ℕ → ℕ → Text → JoinCondition
unfolding trim
split_at expr pos len op = record {
  left = trim (take pos expr);
  right = trim (drop (pos + len) expr);
  op = op;
}

-- The loop over the symbol operators.
unfoldable pub first_symbol : Text → List Text → Option JoinCondition
unfolding find split_at
first_symbol expr [] = none
first_symbol expr (op ∷ ops) = elim (find expr op) [
  | some pos ↦ some (split_at expr pos (length op) op)
  | none ↦ first_symbol expr ops
]

abbrev pub symbol_ops : List Text
symbol_ops = bytes "<=" ∷ bytes ">=" ∷ bytes "!=" ∷ bytes "=" ∷ bytes "<" ∷ bytes ">" ∷ []

-- `parseJoinCondition`
unfoldable pub parse_join_condition : Text → Option JoinCondition
unfolding trim to_upper find split_at first_symbol
parse_join_condition input =
    let expr = trim input in
    elim (find (to_upper expr) (bytes " BETWEEN ")) [
      | some pos ↦ some (split_at expr pos 9 (bytes "BETWEEN"))
      | none ↦ elim (find (to_upper expr) (bytes " IN ")) [
        | some pos ↦ some (split_at expr pos 4 (bytes "IN"))
        | none ↦ first_symbol expr symbol_ops
      ]
    ]

-- `isAggColumn`
unfoldable pub is_agg_column : Text → Bool
unfolding text_eq one_of
is_agg_column name =
    text_eq (take 5 name) (bytes "COUNT")
    || one_of (bytes "SUM" ∷ bytes "MIN" ∷ bytes "MAX" ∷ bytes "AVG" ∷ []) (take 3 name)

-- `getFirstTokenString`
unfoldable pub until_space : Text → Text
unfolding is_space
until_space [] = []
until_space (c ∷ s) = let rest = until_space s in if is_space c then [] else c ∷ rest

unfoldable pub get_first_token_string : Text → Text
unfolding skip_spaces until_space
get_first_token_string input = until_space (skip_spaces input)
