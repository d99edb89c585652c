-- ===== src/PostProcessing/Scopes.antt =====
-- The column setup, described by scopes: which selection's aliases reach a column.
pub mod Lookups
pub mod Applied
use db_query_optimizer.Common.{
  Bool, true, false, ◌&&◌, Option, none, some, List, [], ◌∷◌, map, if◌then◌else◌, ◌≡◌, refl, arith,
  ap, ap₂, ◌∙◌, sym, Bool-cases, Option-cases, inl, inr, not,
}
use db_query_optimizer.Common.Text.{Text, text_eq, text_eq_refl}
use db_query_optimizer.Base.{TableColumn}
use db_query_optimizer.Ir.{NodeData, IrData, Plan, Plans, null, node, nil, cons}
use db_query_optimizer.PostProcessing.{
  Aliases, no_aliases, lookup, enter_alias, enter_aliases, is_select, collect, resolve_alias,
  set_alias, is_default_table, operation_table, fix_table, apply_alias, set_up_data, aliases_for,
  ensure_correct_column_setup, set_up_children,
}

-- The alias that a column of a selection is given.
unfoldable pub given_alias : TableColumn → Option Text
given_alias c = elim c.alias [ none ↦ none | some a ↦ elim a [ [] ↦ none | b ∷ s ↦ some (b ∷ s) ] ]

unfoldable pub is_text : Option Text → Text → Bool
is_text o t = elim o [ none ↦ false | some a ↦ text_eq t a ]

unfoldable pub or_else {ℓ} : {A : Type ℓ} → Option A → Option A → Option A
or_else o other = elim o [ none ↦ other | some x ↦ some x ]

-- The name of the last column of the selection that is given the alias.
unfoldable pub name_in : List TableColumn → Text → Option Text
name_in [] alias = none
name_in (c ∷ cs) alias =
    or_else (name_in cs alias) (if is_text (given_alias c) alias then some c.column_name else none)

-- The alias of the last column of the selection that has the name and is given one.
unfoldable pub alias_in : List TableColumn → Text → Option Text
alias_in [] name = none
alias_in (c ∷ cs) name =
    or_else (alias_in cs name) (if text_eq name c.column_name then given_alias c else none)

-- A column under a selection: an alias of the selection stands for the name it is given to; a name
-- that the selection gives an alias has that alias; and a table without a name of its own is named after
-- the operation that the column's name shows.
unfoldable pub scoped_column : List TableColumn → TableColumn → TableColumn
scoped_column scope c =
    let name : Text = elim (name_in scope c.column_name) [ none ↦ c.column_name | some n ↦ n ] in
    record {
      table =
          if is_default_table c.table.name
          then record c.table { name = operation_table name c.table.name }
          else c.table;
      column_name = name;
      column_type = c.column_type;
      alias = or_else (alias_in scope name) c.alias;
    }

unfoldable pub scoped_data : List TableColumn → IrData → IrData
unfolding scoped_column
scoped_data scope d = record d {
  input_columns = map (scoped_column scope) d.input_columns;
  output_cols = map (scoped_column scope) d.output_cols;
}

-- A selection's scope is itself and the nodes below it, down to the next selections.
unfoldable pub scope_at : List TableColumn → IrData → List TableColumn
scope_at scope d = if is_select d then d.input_columns else scope

unfoldable mutual
  unfolding scoped_data scope_at

  -- The plan with each node's columns set up in the node's scope.
  pub scoped_plan : List TableColumn → Plan → Plan
  scoped_plan scope null = null
  scoped_plan scope (node d cs) =
      node (record d { ir_data = scoped_data (scope_at scope d.ir_data) d.ir_data })
        (scoped_plans (scope_at scope d.ir_data) cs)

  pub scoped_plans : List TableColumn → Plans → Plans
  scoped_plans scope nil = nil
  scoped_plans scope (cons p ps) = cons (scoped_plan scope p) (scoped_plans scope ps)
