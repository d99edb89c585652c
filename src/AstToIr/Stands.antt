-- ===== src/AstToIr/Stands.antt =====
-- What stands in a plan for the value of a node of the syntax tree: the operator and the columns that
-- the values' fields name, written out for each kind of value.
use db_query_optimizer.TransformHelpers.{
  map_string_to_rel_op, map_string_to_join_type, map_string_to_arith_op, map_string_to_agg_func,
  map_string_to_comp_type, parse_value_by_type,
}
use db_query_optimizer.AstToIr.{catalog_column, value_of, filter_parts, agg_type, is_given}
use db_query_optimizer.Common.{
  sym, Bool-cases, if◌then◌else◌, ℕ, true, false, Option, none, some, List, [], ◌∷◌, ◌++◌, map,
  length, replicate, get_elem?, not, ◌≡◌, ◌≢◌, ◌⊎◌, inl, inr, refl,
}
use db_query_optimizer.Common.Text.{text_eq_iff, text_eq_sound, Text, bytes, text_eq}
use db_query_optimizer.Base.{
  make_table, make_column, comp_eq, comp_between, comp_in, CompType, Table, TableColumn,
  type_integer, normal_alias,
}
use db_query_optimizer.Ast as Ast
use db_query_optimizer.Ir.SelectView
use db_query_optimizer.Catalog.{get_ssb_column_type}
use db_query_optimizer.Ir.{
  monostate, fetch_op, set_op, join_op, filter_op, partner_column, map_op, agg_op, group_op,
  sort_op, select_op, ScalarValue, OpInfo, IrData, Plans, node, cons,
}

-- The plain table of a name.
abbrev pub plain_table : Text → Table
plain_table name = record { name = name; alias = none; is_virtual = false; schema = [] }

-- The column of a table, of the type in the catalog.
abbrev pub column_at : Text → Text → Option Text → TableColumn
column_at table column alias = record {
  table = plain_table table;
  column_name = column;
  column_type = get_ssb_column_type table column;
  alias = alias;
}

-- A column of whole numbers that an operator makes.
abbrev pub made_column : Text → Text → TableColumn
made_column table column = record {
  table = plain_table table;
  column_name = column;
  column_type = type_integer;
  alias = none;
}

-- The parts of a node: its operator, its inputs, and its outputs.
abbrev pub Parts : IrData → OpInfo → List TableColumn → List TableColumn → Type 0
Parts d i inputs outputs = (d.op_info ≡ i) × (d.input_columns ≡ inputs) × (d.output_cols ≡ outputs)

-- The first outputs of two children.
abbrev pub FirstOutputs : Plans → TableColumn → TableColumn → Type 0
FirstOutputs (cons (node d ds) (cons (node e es) rest)) a b =
    (get_elem? d.ir_data.output_cols 0 ≡ some a) × (get_elem? e.ir_data.output_cols 0 ≡ some b)
FirstOutputs _ a b = ⊥

module _ (stoull stof : Text → Option ℕ) where
  -- The constant of a filter, read as a value of the type of the filtered column.
  abbrev pub constant : Ast.WhereClauseNode → Text → ScalarValue
  constant e val = parse_value_by_type stoull stof val (get_ssb_column_type e.table e.column)

  -- The filter of a condition: its comparison, the second column if it has one, and its constants.
  pub data FilterIs (e : Ast.WhereClauseNode)
      : CompType → List TableColumn → List ScalarValue → Type 0 where
    either_or :
        e.operator_type ≡ bytes "OR"
        → e.value2 ≢ []
        → FilterIs e comp_in [] (constant e e.value ∷ constant e e.value2 ∷ [])
    or_once :
        e.operator_type ≡ bytes "OR"
        → e.value2 ≡ []
        → FilterIs e comp_in [] (constant e e.value ∷ [])
    within :
        e.operator_type ≡ bytes "BETWEEN"
        → FilterIs e comp_between [] (constant e e.value ∷ constant e e.value2 ∷ [])
    with_column :
        (table2 : Text)
        → e.operator_type ≢ bytes "OR"
        → e.operator_type ≢ bytes "BETWEEN"
        → e.column ≢ []
        → e.column2 ≢ []
        → ((e.table2 ≢ []) × (table2 ≡ e.table2)) ⊎ ((e.table2 ≡ []) × (table2 ≡ e.table))
        → FilterIs e
            (map_string_to_comp_type e.operator_type)
            (column_at table2 e.column2 none ∷ [])
            []
    with_constant :
        e.operator_type ≢ bytes "OR"
        → e.operator_type ≢ bytes "BETWEEN"
        → (e.column ≡ []) ⊎ (e.column2 ≡ [])
        → FilterIs e (map_string_to_comp_type e.operator_type) [] (constant e e.value ∷ [])

  -- The node of the value, over the children that the tree has made.
  abbrev pub StandsFor : Ast.AstValue → Plans → IrData → Type 0
  StandsFor (Ast.select_clause_node e) cs d =
      let columns =
        map (λ s. column_at s.table s.column (normal_alias (some s.alias))) e.description in
      Parts d
        (select_op (record { result_idx = none; result_headers = map SelectView.header columns }))
        columns columns
  StandsFor (Ast.order_by_clause_node e) cs d =
      (d.op_info
        ≡ sort_op (record {
          column_list =
              map
                (λ o. record {
                  column = column_at o.table o.column none;
                  order_type = not (text_eq o.ordertype (bytes "DESC"));
                  null_ordering = text_eq o.nullordering (bytes "FIRST");
                })
                e.order_by_list;
          existing_idx = none;
        }))
      × (d.input_columns ≡ map (λ o. column_at o.table o.column none) e.order_by_list)
  StandsFor (Ast.group_by_clause_node e) cs d =
      (d.op_info
        ≡ group_op (record {
          sort_orders = replicate (length e.description) true;
          has_agg = false;
          store_extends = true;
        }))
      × (d.input_columns ≡ map (λ g. column_at g.table g.column none) e.description)
  StandsFor (Ast.aggregate_clause_node e) cs d =
      elim (map_string_to_agg_func e.aggregate_function) [
        | none ↦ Parts d monostate [] []
        | some f ↦
            Parts d (agg_op (record { agg_func = f }))
              (column_at e.table e.column (normal_alias (some e.alias)) ∷ [])
              (record {
                table = plain_table (bytes "AGG");
                column_name = e.aggregate_function ++ (bytes "(" ++ (e.column ++ bytes ")"));
                column_type = agg_type f (get_ssb_column_type e.table e.column);
                alias = normal_alias (some e.alias);
              }
                ∷ [])
      ]
  StandsFor (Ast.map_node e) cs d =
      Parts d
        (map_op (record {
          operator_type = map_string_to_arith_op e.operator_type;
          partner_val = partner_column (column_at e.table2 e.column2 none);
        }))
        (column_at e.table1 e.column1 none ∷ column_at e.table2 e.column2 none ∷ [])
        (made_column (bytes "MAP") (e.column1 ++ (e.operator_type ++ e.column2)) ∷ [])
  StandsFor (Ast.where_clause_node e) cs d =
      (comp : CompType) × (more : List TableColumn) × (args : List ScalarValue) × FilterIs e comp
        more args
      × Parts d (filter_op (record { filter_type = comp; filter_args = args }))
          (column_at e.table e.column none ∷ more) (column_at e.table e.column none ∷ [])
  StandsFor (Ast.table_join_node e) cs d =
      let left = column_at e.on_left_table e.on_left_table_column none in
      let right = column_at e.on_right_table e.on_right_table_column none in
      Parts d
        (join_op (record {
          join_type = map_string_to_join_type e.join_type;
          join_predicate = comp_eq;
          output_col =
              made_column (bytes "JOIN")
                (e.on_left_table_column ++ (bytes "=" ++ e.on_right_table_column));
        }))
        (left ∷ right ∷ []) (left ∷ right ∷ [])
  StandsFor (Ast.set_operation_node e) cs d =
      (a : TableColumn) × (b : TableColumn) × FirstOutputs cs a b
      × Parts d (set_op (record { operation = map_string_to_rel_op e.set_operation })) (a ∷ b ∷ [])
          (record (made_column [] e.set_operation) { column_type = a.column_type } ∷ [])
  StandsFor (Ast.table_base_node e) cs d =
      let all_columns : TableColumn = record (made_column e.table_name []) {
        table = record (plain_table e.table_name) { alias = normal_alias (some e.table_alias) };
      } in
      Parts d (fetch_op (record { was_table_base_node = true })) (all_columns ∷ [])
        (all_columns ∷ [])
  StandsFor _ cs d = Parts d monostate [] []

  nothing_given : (s : Text) → is_given s ≡ false → s ≡ []
  unfolding is_given
  nothing_given [] h = refl
  nothing_given (c ∷ s) h = cc

  something_given : (s : Text) → is_given s ≡ true → s ≢ []
  unfolding is_given
  something_given [] h e = cc
  something_given (c ∷ s) h e = cc

  differs : (a b : Text) → text_eq a b ≡ false → a ≢ b
  differs a b h e = let t = (text_eq_iff a b).1 e in cc

  second_column :
      (e : Ast.WhereClauseNode)
      → (t : Text) × (t ≡ (if is_given e.table2 then e.table2 else e.table))
        × (((e.table2 ≢ []) × (t ≡ e.table2)) ⊎ ((e.table2 ≡ []) × (t ≡ e.table)))
  second_column e = elim (Bool-cases (is_given e.table2)) [
    | inl g ↦ (e.table2, rw g refl, inl (something_given e.table2 g, refl))
    | inr g ↦ (e.table, rw g refl, inr (nothing_given e.table2 g, refl))
  ]

  -- The filter's three parts are those of the condition.
  pub filter_parts-FilterIs :
      (e : Ast.WhereClauseNode)
      → FilterIs e
          (filter_parts stoull stof e).op_type
          (elim (filter_parts stoull stof e).col2 [ none ↦ [] | some c ↦ c ∷ [] ])
          (filter_parts stoull stof e).filter_args
  unfolding filter_parts value_of catalog_column make_column make_table normal_alias
  filter_parts-FilterIs e = elim (Bool-cases (text_eq e.operator_type (bytes "OR"))) [
    | inl o ↦ elim (Bool-cases (is_given e.value2)) [
      | inl g ↦
          rw (o, g) (either_or (text_eq_sound e.operator_type _ o) (something_given e.value2 g))
      | inr g ↦ rw (o, g) (or_once (text_eq_sound e.operator_type _ o) (nothing_given e.value2 g))
    ]
    | inr o ↦ elim (Bool-cases (text_eq e.operator_type (bytes "BETWEEN"))) [
      | inl w ↦ rw (o, w) (within (text_eq_sound e.operator_type _ w))
      | inr w ↦ elim (Bool-cases (is_given e.column)) [
        | inr c ↦
            rw (o, w, c)
              (with_constant (differs e.operator_type _ o) (differs e.operator_type _ w)
                (inl (nothing_given e.column c)))
        | inl c ↦ elim (Bool-cases (is_given e.column2)) [
          | inr k ↦
              rw (o, w, c, k)
                (with_constant (differs e.operator_type _ o) (differs e.operator_type _ w)
                  (inr (nothing_given e.column2 k)))
          | inl k ↦
              let (t, same, which) = second_column e in
              rw (o, w, c, k, sym same)
                (with_column t (differs e.operator_type _ o) (differs e.operator_type _ w)
                  (something_given e.column c) (something_given e.column2 k) which)
        ]
      ]
    ]
  ]
