-- ===== src/AstToIr/Made.antt =====
-- What one node of a syntax tree is made to.
use db_query_optimizer.AstToIr.Stands.{column_at, filter_parts-FilterIs, FirstOutputs}
use db_query_optimizer.Common.{
  ◌++◌, replicate, ℕ, ◌≤◌, true, false, Option, none, some, List, [], ◌∷◌, map, length, length-map,
  length-append, length-replicate, get_elem?, ◌>>=◌, ◌≡◌, refl, arith, Option-cases, inl, inr, ap,
}
use db_query_optimizer.Common.Text.{Text}
use db_query_optimizer.Base.{normal_alias, make_table, make_column, TableColumn, AggFunc}
use db_query_optimizer.Catalog.{get_ssb_column_type}
use db_query_optimizer.Ir.{group_op, IrData, Plans}
use db_query_optimizer.Optimizations.SortMerge.Keeps.{IsPlain}
use db_query_optimizer.Optimizations.AggMove.Count.{OpIsFed, plan_count}
use db_query_optimizer.TransformHelpers.{map_string_to_agg_func, map_string_to_arith_op}
use db_query_optimizer.Ast as Ast
use db_query_optimizer.AstToIr.{
  fresh_ir, select_columns, catalog_column, aggregate_with, types_are_invalid, aggregate_ir, map_ir,
  order_of, ast_data, filter_parts, where_ir, child_outputs, set_two, set_type, set_columns,
}
use db_query_optimizer.Ir.AggView
use db_query_optimizer.Ir.FilterView
use db_query_optimizer.Ir.MapView
use db_query_optimizer.Ir.SetOpView
use db_query_optimizer.AstToIr.Sound.{ValueGivesOutput}
use db_query_optimizer.AstToIr.Stands.{StandsFor}

-- A set operation finds the two columns that it takes over.
abbrev pub HasInputs : Ast.AstValue → Plans → Type 0
HasInputs (Ast.set_operation_node e) cs =
    (a : TableColumn) × (b : TableColumn) × (child_outputs cs ≡ some (a, b)) × FirstOutputs cs a b
HasInputs _ cs = Unit

abbrev pub HasOutput : IrData → Type 0
HasOutput d = (c : TableColumn) × (get_elem? d.output_cols 0 ≡ some c)

abbrev pub IsAcceptable : Ast.AstValue → Plans → Type 0
IsAcceptable (Ast.map_node e) cs =
    types_are_invalid (get_ssb_column_type e.table1 e.column1)
      (get_ssb_column_type e.table2 e.column2) (map_string_to_arith_op e.operator_type)
    ≡ false
IsAcceptable (Ast.aggregate_clause_node e) cs = plan_count cs ≡ 1
IsAcceptable _ cs = Unit

module _ (stoull stof : Text → Option ℕ) where
  -- What a node is made to.
  abbrev pub IsMade : Ast.AstValue → Plans → Option IrData → Type 0
  IsMade v cs r =
      (e : IrData) × (r ≡ some e)
      × IsPlain e
      × OpIsFed e.op_info cs
      × StandsFor stoull stof v cs e
      × (ValueGivesOutput v → HasOutput e)

  no_aggregate :
      (e : Ast.AggregateClauseNode)
      → map_string_to_agg_func e.aggregate_function ≡ none
      → aggregate_ir e ≡ fresh_ir
  unfolding aggregate_ir
  no_aggregate e h = rw (aggregate_ir, h) refl

  some_aggregate :
      (e : Ast.AggregateClauseNode) (f : AggFunc)
      → map_string_to_agg_func e.aggregate_function ≡ some f
      → aggregate_ir e ≡ aggregate_with e f
  unfolding aggregate_ir
  some_aggregate e f h = rw (aggregate_ir, h) refl

  aggregate_lem :
      (e : Ast.AggregateClauseNode) (cs : Plans)
      → plan_count cs ≡ 1
      → IsMade (Ast.aggregate_clause_node e) cs (set_columns (aggregate_ir e) cs)
  unfolding aggregate_with set_columns AggView.create make_column make_table normal_alias
  aggregate_lem e cs h = elim (Option-cases (map_string_to_agg_func e.aggregate_function)) [
    | inl n ↦ (
      fresh_ir,
      ap (λ d. set_columns d cs) (no_aggregate e n),
      (tt, tt),
      tt,
      rw (StandsFor, n) (refl, refl, refl),
      λ b. absurd (rw (ValueGivesOutput, n) at b),
    )
    | inr (f, k) ↦ (
      aggregate_with e f,
      ap (λ d. set_columns d cs) (some_aggregate e f k),
      ((refl, refl), tt),
      h,
      rw (StandsFor, k) (refl, refl, refl),
      λ b. (_, refl),
    )
  ]

  map_lem :
      (e : Ast.MapNode) (cs : Plans)
      → IsAcceptable (Ast.map_node e) cs
      → IsMade (Ast.map_node e) cs (map_ir e >>= λ d. set_columns d cs)
  unfolding map_ir MapView.create set_columns catalog_column make_column make_table normal_alias
  map_lem e cs h =
      rw (map_ir, h)
        (_, refl, ((omega arith, omega arith, refl), tt), tt, (refl, refl, refl), λ b. (_, refl))

  first_of_map :
      (ds : List Ast.SelectClauseDescription)
      → 1 ≤ length ds
      → (c : TableColumn) × (get_elem? (select_columns ds) 0 ≡ some c)
  unfolding select_columns
  first_of_map [] h = absurd (omega arith)
  first_of_map (d ∷ ds) h = (_, refl)

  filter_IsShaped : (e : Ast.WhereClauseNode) → IsPlain (where_ir stoull stof e)
  unfolding where_ir FilterView.create
  filter_IsShaped e = elim (Option-cases (filter_parts stoull stof e).col2) [
    | inl n ↦ ((rw (n) (omega arith), rw (n) (omega arith), refl), tt)
    | inr (c, n) ↦ ((rw (n) (omega arith), rw (n) (omega arith), refl), tt)
  ]

  where_lem :
      (e : Ast.WhereClauseNode) (cs : Plans)
      → StandsFor stoull stof (Ast.where_clause_node e) cs (where_ir stoull stof e)
  unfolding where_ir FilterView.create catalog_column make_column make_table normal_alias
  where_lem e cs = (_, _, _, filter_parts-FilterIs stoull stof e, (refl, refl, refl))

  select_lem :
      (ds : List Ast.SelectClauseDescription)
      → select_columns ds ≡ map (λ s. column_at s.table s.column (normal_alias (some s.alias))) ds
  unfolding select_columns catalog_column make_column make_table normal_alias
  select_lem ds = refl

  columns_of_orders :
      (ds : List Ast.OrderByDescription)
      → map (λ o. o.column) (map order_of ds) ++ [] ≡ map (λ o. column_at o.table o.column none) ds
  unfolding order_of catalog_column make_column make_table normal_alias
  columns_of_orders [] = refl
  columns_of_orders (d ∷ ds) = ap (λ t. column_at d.table d.column none ∷ t) (columns_of_orders ds)

  group_lem :
      (ds : List Ast.GroupByDescription)
      → group_op (record {
        sort_orders = replicate (length (map (λ d. catalog_column d.table d.column none) ds)) true;
        has_agg = false;
        store_extends = true;
      })
        ≡ group_op (record {
          sort_orders = replicate (length ds) true;
          has_agg = false;
          store_extends = true;
        })
  group_lem ds =
      ap
        (λ n.
          group_op
            (record { sort_orders = replicate n true; has_agg = false; store_extends = true }))
        (length-map ds (λ d. catalog_column d.table d.column none))

  pub made :
      (v : Ast.AstValue) (cs : Plans)
      → IsAcceptable v cs
      → HasInputs v cs
      → IsMade v cs (ast_data stoull stof v >>= λ d. set_columns d cs)
  unfolding ast_data set_columns where_ir set_two set_type SetOpView.create select_columns order_of
      catalog_column make_column make_table normal_alias
  made Ast.monostate cs h k = (_, refl, (tt, tt), tt, (refl, refl, refl), λ b. absurd b)
  made (Ast.limit_clause_node e) cs h k = (_, refl, (tt, tt), tt, (refl, refl, refl), λ b. absurd b)
  made (Ast.select_clause_node e) cs h k =
      (_, refl, (refl, tt), tt, (refl, refl, refl), λ b. first_of_map e.description b)
  made (Ast.order_by_clause_node e) cs h k = (
    _,
    refl,
    (
      (
        omega (
          arith,
          length-append (map (λ o. o.column) (map order_of e.order_by_list)) [],
          length-map (map order_of e.order_by_list) (λ o. o.column),
        ),
        refl,
      ),
      refl,
    ),
    tt,
    (refl, columns_of_orders e.order_by_list),
    λ b. (_, refl),
  )
  made (Ast.group_by_clause_node e) cs h k = (
    _,
    refl,
    (
      (
        omega (
          arith,
          length-replicate (length (map (λ d. catalog_column d.table d.column none) e.description))
              true,
        ),
        refl,
      ),
      refl,
    ),
    tt,
    (group_lem e.description, refl),
    λ b. (_, refl),
  )
  made (Ast.aggregate_clause_node e) cs h k = aggregate_lem e cs h
  made (Ast.map_node e) cs h k = map_lem e cs h
  made (Ast.where_clause_node e) cs h k =
      (where_ir stoull stof e, refl, filter_IsShaped e, tt, where_lem e cs, λ b. (_, refl))
  made (Ast.table_join_node e) cs h k =
      (_, refl, ((refl, refl), tt), tt, (refl, refl, refl), λ b. (_, refl))
  made (Ast.table_base_node e) cs h k =
      (_, refl, ((refl, refl), tt), tt, (refl, refl, refl), λ b. (_, refl))
  made (Ast.set_operation_node e) cs h (a, b, k, first) =
      rw (k) (_, refl, ((refl, refl), tt), tt, (a, b, first, (refl, refl, refl)), λ x. (_, refl))
