-- ===== src/PostProcessing.antt =====
-- `ensureCorrectColumnSetup` of src/ir/ir_post_processing.cpp: the aliases of a selection reach the
-- columns below it. A `std::map` is an association list, the newest entry first. The source's
-- children are never null: a null one is passed over here. The output on the console is left out.
pub mod Columns
pub mod Scopes
use db_query_optimizer.Common.{
  Bool, true, false, ◌||◌, Option, none, some, List, [], ◌∷◌, map, if◌then◌else◌,
}
use db_query_optimizer.Common.Text.{Text, bytes, text_eq}
use db_query_optimizer.Base.{TableColumn}
use db_query_optimizer.Ir.{IrData, NodeData, Plan, Plans, null, node, nil, cons, select_op}
use db_query_optimizer.TransformHelpers.{map_string_to_agg_func, contains_arith_map_op}

-- `contains` and `operator[]`
unfoldable pub lookup : List (Text × Text) → Text → Option Text
unfolding text_eq
lookup [] key = none
lookup ((k, v) ∷ rest) key = if text_eq key k then some v else lookup rest key

pub record Aliases : Type 0 where
  pub alias_to_name : List (Text × Text)
  pub name_to_alias : List (Text × Text)

abbrev pub no_aliases : Aliases
no_aliases = record { alias_to_name = []; name_to_alias = [] }

-- The body of the loop over a selection's columns: an alias that is there and not empty is entered.
unfoldable pub enter_alias : TableColumn → Aliases → Aliases
unfolding text_eq
enter_alias col aliases = elim col.alias [
  | none ↦ aliases
  | some alias ↦ if text_eq alias [] then aliases else record {
    alias_to_name = (alias, col.column_name) ∷ aliases.alias_to_name;
    name_to_alias = (col.column_name, alias) ∷ aliases.name_to_alias;
  }
]

unfoldable pub enter_aliases : List TableColumn → Aliases → Aliases
unfolding enter_alias
enter_aliases [] aliases = aliases
enter_aliases (c ∷ cs) aliases = enter_aliases cs (enter_alias c aliases)

-- `get_view_if<SelectView>()`
unfoldable pub is_select : IrData → Bool
is_select d = elim d.op_info [ select_op _ ↦ true | _ ↦ false ]

unfoldable pub collect : IrData → Aliases → Aliases
unfolding is_select enter_aliases
collect d aliases = if is_select d then enter_aliases d.input_columns aliases else aliases

-- The three steps of `applyAlias`.
unfoldable pub resolve_alias : Aliases → TableColumn → TableColumn
unfolding lookup
resolve_alias aliases col = elim (lookup aliases.alias_to_name col.column_name) [
  | none ↦ col
  | some name ↦ record col { alias = some col.column_name; column_name = name }
]

unfoldable pub set_alias : Aliases → TableColumn → TableColumn
unfolding lookup
set_alias aliases col = elim (lookup aliases.name_to_alias col.column_name) [
  | none ↦ col
  | some alias ↦ record col { alias = some alias }
]

unfoldable pub is_default_table : Text → Bool
unfolding text_eq
is_default_table name = text_eq name [] || text_eq name (bytes "Default")

unfoldable pub operation_table : Text → Text → Text
unfolding map_string_to_agg_func contains_arith_map_op
operation_table column_name table_name = elim (map_string_to_agg_func column_name) [
  | some _ ↦ bytes "AGG"
  | none ↦ if contains_arith_map_op column_name then bytes "MAP" else table_name
]

unfoldable pub fix_table : TableColumn → TableColumn
unfolding is_default_table operation_table
fix_table col =
    if is_default_table col.table.name
    then record col {
      table = record col.table { name = operation_table col.column_name col.table.name };
    }
    else col

-- `applyAlias`
unfoldable pub apply_alias : Aliases → TableColumn → TableColumn
unfolding resolve_alias set_alias fix_table
apply_alias aliases col = fix_table (set_alias aliases (resolve_alias aliases col))

unfoldable pub set_up_data : Aliases → IrData → IrData
unfolding apply_alias
set_up_data aliases d = record d {
  input_columns = map (apply_alias aliases) d.input_columns;
  output_cols = map (apply_alias aliases) d.output_cols;
}

-- The aliases that a child starts with: a selection below starts a scope of its own.
unfoldable pub aliases_for : Plan → Aliases → Aliases
unfolding is_select
aliases_for null aliases = aliases
aliases_for (node d cs) aliases = if is_select d.ir_data then no_aliases else aliases

unfoldable mutual
  unfolding collect set_up_data aliases_for

  -- `ensureCorrectColumnSetup`
  pub ensure_correct_column_setup : Plan → Aliases → Plan
  ensure_correct_column_setup null aliases = null
  ensure_correct_column_setup (node d cs) aliases =
      node (record d { ir_data = set_up_data (collect d.ir_data aliases) d.ir_data })
        (set_up_children cs (collect d.ir_data aliases))

  -- The loop over the children.
  pub set_up_children : Plans → Aliases → Plans
  set_up_children nil aliases = nil
  set_up_children (cons p ps) aliases =
      cons (ensure_correct_column_setup p (aliases_for p aliases)) (set_up_children ps aliases)
