-- ===== src/PostProcessing/Scopes/Applied.antt =====
-- The column setup of a whole plan and of its scopes.
use db_query_optimizer.Common.{
  none, some, List, [], ◌∷◌, map, if◌then◌else◌, ◌≡◌, refl, ap, ap₂, ◌∙◌, sym, Bool-cases,
  Option-cases, inl, inr,
}
use db_query_optimizer.Common.Text.{Text}
use db_query_optimizer.Base.{TableColumn}
use db_query_optimizer.Ir.{NodeData, IrData, Plan, Plans, null, node, nil, cons}
use db_query_optimizer.PostProcessing.{
  Aliases, no_aliases, lookup, enter_aliases, is_select, collect, resolve_alias, set_alias,
  is_default_table, operation_table, fix_table, apply_alias, set_up_data, aliases_for,
  ensure_correct_column_setup, set_up_children,
}
use db_query_optimizer.PostProcessing.Scopes.{
  or_else, name_in, alias_in, scoped_column, scoped_data, scope_at, scoped_plan, scoped_plans,
}
use db_query_optimizer.PostProcessing.Scopes.Lookups.{name_found, alias_found, alias_known}

-- The table is mended in place.
fix_table_lem :
    (c : TableColumn)
    → fix_table c ≡ record c {
      table =
          if is_default_table c.table.name
          then record c.table { name = operation_table c.column_name c.table.name }
          else c.table;
    }
unfolding fix_table
fix_table_lem c = elim (Bool-cases (is_default_table c.table.name)) [
  | inl e ↦ rw e refl
  | inr e ↦ rw e refl
]

-- The first two steps, by what is looked up.
module _ (aliases : Aliases) (c : TableColumn) where
  no_name : lookup aliases.alias_to_name c.column_name ≡ none → resolve_alias aliases c ≡ c
  unfolding resolve_alias
  no_name h = rw (resolve_alias, h) refl

  some_name :
      (name : Text)
      → lookup aliases.alias_to_name c.column_name ≡ some name
      → resolve_alias aliases c ≡ record c { alias = some c.column_name; column_name = name }
  unfolding resolve_alias
  some_name name h = rw (resolve_alias, h) refl

  no_alias : lookup aliases.name_to_alias c.column_name ≡ none → set_alias aliases c ≡ c
  unfolding set_alias
  no_alias h = rw (set_alias, h) refl

  some_alias :
      (a : Text)
      → lookup aliases.name_to_alias c.column_name ≡ some a
      → set_alias aliases c ≡ record c { alias = some a }
  unfolding set_alias
  some_alias a h = rw (set_alias, h) refl

  steps :
      (r s : TableColumn)
      → resolve_alias aliases c ≡ r
      → set_alias aliases r ≡ s
      → apply_alias aliases c ≡ fix_table s
  unfolding apply_alias
  steps r s h k = ap (λ t. fix_table (set_alias aliases t)) h ∙ ap fix_table k

apply_alias-scoped_column :
    (scope : List TableColumn) (c : TableColumn)
    → apply_alias (enter_aliases scope no_aliases) c ≡ scoped_column scope c
unfolding scoped_column or_else
apply_alias-scoped_column scope c =
    let known = enter_aliases scope no_aliases in
    let e1 = name_found scope c.column_name in
    elim (Option-cases (name_in scope c.column_name)) [
      | inl n ↦
          let e2 = alias_found scope c.column_name in
          elim (Option-cases (alias_in scope c.column_name)) [
            | inl a ↦
                steps known c c c (no_name known c (e1 ∙ n)) (no_alias known c (e2 ∙ a))
                ∙ fix_table_lem c
                ∙ rw (scoped_column, n) (rw a refl)
            | inr (x, a) ↦
                let s = record c { alias = some x } in
                steps known c c s (no_name known c (e1 ∙ n)) (some_alias known c x (e2 ∙ a))
                ∙ fix_table_lem s
                ∙ rw (scoped_column, n) (rw a refl)
          ]
      | inr (name, n) ↦
          let e2 = alias_found scope name in
          let (x, a) = alias_known scope c.column_name name n in
          let r = record c { alias = some c.column_name; column_name = name } in
          let s = record r { alias = some x } in
          steps known c r s (some_name known c name (e1 ∙ n)) (some_alias known r x (e2 ∙ a))
          ∙ fix_table_lem s
          ∙ rw (scoped_column, n) (rw a refl)
    ]

columns_same :
    (scope cs : List TableColumn)
    → map (apply_alias (enter_aliases scope no_aliases)) cs ≡ map (scoped_column scope) cs
columns_same scope [] = refl
columns_same scope (c ∷ cs) =
    ap₂ (λ x xs. x ∷ xs) (apply_alias-scoped_column scope c) (columns_same scope cs)

set_up_data-scoped_data :
    (scope : List TableColumn) (d : IrData)
    → set_up_data (enter_aliases scope no_aliases) d ≡ scoped_data scope d
unfolding set_up_data scoped_data
set_up_data-scoped_data scope d =
    ap₂ (λ i o. record d { input_columns = i; output_cols = o })
      (columns_same scope d.input_columns) (columns_same scope d.output_cols)

-- The aliases that a node comes to, from those of its parent's scope.
collect-scope_at :
    (scope : List TableColumn) (d : NodeData) (cs : Plans)
    → collect d.ir_data (aliases_for (node d cs) (enter_aliases scope no_aliases))
      ≡ enter_aliases (scope_at scope d.ir_data) no_aliases
unfolding collect aliases_for scope_at
collect-scope_at scope d cs = elim (Bool-cases (is_select d.ir_data)) [
  | inl e ↦ rw e refl
  | inr e ↦ rw e refl
]

mutual
  unfolding ensure_correct_column_setup set_up_children scoped_plan scoped_plans

  scoped :
      (p : Plan) (scope : List TableColumn)
      → ensure_correct_column_setup p (aliases_for p (enter_aliases scope no_aliases))
        ≡ scoped_plan scope p
  scoped null scope = refl
  scoped (node d cs) scope = rw (collect-scope_at scope d cs) (
      ap₂ (λ e es. node (record d { ir_data = e }) es)
        (set_up_data-scoped_data (scope_at scope d.ir_data) d.ir_data)
        (scoped_children cs (scope_at scope d.ir_data)))

  scoped_children :
      (cs : Plans) (scope : List TableColumn)
      → set_up_children cs (enter_aliases scope no_aliases) ≡ scoped_plans scope cs
  scoped_children nil scope = refl
  scoped_children (cons p ps) scope =
      ap₂ (λ q qs. cons q qs) (scoped p scope) (scoped_children ps scope)

fresh_scope : (p : Plan) → aliases_for p no_aliases ≡ no_aliases
unfolding aliases_for
fresh_scope null = refl
fresh_scope (node d cs) = elim (Bool-cases (is_select d.ir_data)) [
  | inl e ↦ rw e refl
  | inr e ↦ rw e refl
]

-- Started without aliases, the column setup sets each column up in the scope of the nearest selection
-- at or above its node, and of no other: an alias of that selection is replaced by the name that the
-- last of its columns with that alias has; a name that the selection gives an alias has the last one
-- it is given; and a table that is unnamed or "Default" is named after the operation in the column's
-- name, if there is one. All else of the plan stays.
pub ensure_correct_column_setup-scoped_plan :
    (p : Plan) → ensure_correct_column_setup p no_aliases ≡ scoped_plan [] p
unfolding enter_aliases
ensure_correct_column_setup-scoped_plan p =
    ap (ensure_correct_column_setup p) (sym (fresh_scope p)) ∙ scoped p []
