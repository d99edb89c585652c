-- ===== src/AstToIr/Refuses.antt =====
-- The syntax trees that have no plan.
use db_query_optimizer.Base.{type_integer, ArithOp, arith_mod, ColumnType, type_string}
use db_query_optimizer.Common.{
  arith, ◌≢◌, ℕ, true, Option, none, ◌≡◌, refl, Option-cases, ◌⊎◌, inl, inr,
}
use db_query_optimizer.Common.Text.{bytes, Text}
use db_query_optimizer.Catalog.{get_ssb_column_type}
use db_query_optimizer.TransformHelpers.{map_string_to_arith_op}
use db_query_optimizer.Ast as Ast
use db_query_optimizer.AstToIr.{
  false, is_mod, is_string, is_integer, types_are_invalid, map_ir, ast_data, ast_to_ir,
}

-- The catalog's types of the operands of a map.
abbrev pub type1 : Ast.MapNode → ColumnType
type1 e = get_ssb_column_type e.table1 e.column1

abbrev pub type2 : Ast.MapNode → ColumnType
type2 e = get_ssb_column_type e.table2 e.column2

-- What is wrong with a map: an operand is a text, or the operator is written "%" and an operand is no
-- integer.
pub data IsBadMap : Ast.MapNode → Type 0 where
  text_first : {e : Ast.MapNode} → type1 e ≡ type_string → IsBadMap e
  text_second : {e : Ast.MapNode} → type2 e ≡ type_string → IsBadMap e
  mod_first : {e : Ast.MapNode} → e.operator_type ≡ bytes "%" → type1 e ≢ type_integer → IsBadMap e
  mod_second : {e : Ast.MapNode} → e.operator_type ≡ bytes "%" → type2 e ≢ type_integer → IsBadMap e

-- Some map of the tree is wrong.
abbrev pub HasBadMap : Ast.AstNode → Type 0
HasBadMap Ast.null = ⊥
HasBadMap (Ast.node v l r) =
    ((e : Ast.MapNode) × (v ≡ Ast.map_node e) × IsBadMap e) ⊎ (HasBadMap l ⊎ HasBadMap r)

string_first : (t : ColumnType) (op : ArithOp) → types_are_invalid type_string t op ≡ true
unfolding types_are_invalid is_string
string_first t op = refl

string_second : (t : ColumnType) (op : ArithOp) → types_are_invalid t type_string op ≡ true
unfolding types_are_invalid is_string
string_second t op = ground arith

not_integer : (t : ColumnType) → t ≢ type_integer → is_integer t ≡ false
unfolding is_integer
not_integer type_integer n = absurd (n refl)
not_integer _ n = refl

mod_first_lem : (t u : ColumnType) → t ≢ type_integer → types_are_invalid t u arith_mod ≡ true
unfolding types_are_invalid is_mod
mod_first_lem t u n = ground (arith, not_integer t n)

mod_second_lem : (t u : ColumnType) → u ≢ type_integer → types_are_invalid t u arith_mod ≡ true
unfolding types_are_invalid is_mod
mod_second_lem t u n = ground (arith, not_integer u n)

is_remainder : (s : Text) → s ≡ bytes "%" → map_string_to_arith_op s ≡ arith_mod
unfolding map_string_to_arith_op
is_remainder s e = rw e refl

bad_types :
    (e : Ast.MapNode)
    → IsBadMap e
    → types_are_invalid (type1 e) (type2 e) (map_string_to_arith_op e.operator_type) ≡ true
bad_types e (text_first h) = rw h (string_first _ _)
bad_types e (text_second h) = rw h (string_second _ _)
bad_types e (mod_first s n) =
    rw (is_remainder e.operator_type s) (mod_first_lem (type1 e) (type2 e) n)
bad_types e (mod_second s n) =
    rw (is_remainder e.operator_type s) (mod_second_lem (type1 e) (type2 e) n)

bad_map-none :
    (stoull stof : Text → Option ℕ) (e : Ast.MapNode)
    → IsBadMap e
    → ast_data stoull stof (Ast.map_node e) ≡ none
unfolding ast_data map_ir
bad_map-none stoull stof e h = rw (map_ir, bad_types e h) refl

-- A tree that holds, anywhere, a map one of whose operands is a text by the catalog, or a map written
-- "%" one of whose operands is no integer, gets no plan. The `none` is the exception for the map, or what stopped
-- the translation before it.
pub ast_to_ir-none :
    (stoull stof : Text → Option ℕ) (t : Ast.AstNode) → HasBadMap t → ast_to_ir stoull stof t ≡ none
unfolding ast_to_ir
ast_to_ir-none stoull stof Ast.null h = absurd h
ast_to_ir-none stoull stof (Ast.node v l r) (inl (e, ev, h)) =
    rw ev (rw (ast_to_ir, bad_map-none stoull stof e h) refl)
ast_to_ir-none stoull stof (Ast.node v l r) (inr (inl h)) =
    elim (Option-cases (ast_data stoull stof v)) [
      | inl n ↦ rw (ast_to_ir, n) refl
      | inr (d, n) ↦ rw (ast_to_ir, n, ast_to_ir-none stoull stof l h) refl
    ]
ast_to_ir-none stoull stof (Ast.node v l r) (inr (inr h)) =
    elim (Option-cases (ast_data stoull stof v)) [
      | inl n ↦ rw (ast_to_ir, n) refl
      | inr (d, n) ↦ elim (Option-cases (ast_to_ir stoull stof l)) [
        | inl m ↦ rw (ast_to_ir, n, m) refl
        | inr (p, m) ↦ rw (ast_to_ir, n, m, ast_to_ir-none stoull stof r h) refl
      ]
    ]
