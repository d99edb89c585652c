-- ===== src/AstToIr.antt =====
-- src/ir/ast_to_ir.cpp: from the syntax tree of a query to its plan. `none` is a thrown
-- `std::runtime_error`, or a child or column that is read and not there. The string to number
-- functions of the standard library are parameters: `none` where they throw.
pub mod Stands
pub mod Sound
pub mod Made
pub mod Plain
pub mod Refuses
use db_query_optimizer.Common.{
  ℕ, Bool, true, false, ◌&&◌, ◌||◌, not, Option, none, some, List, [], ◌∷◌, ◌++◌, map,
  if◌then◌else◌, ◌>>=◌, get_elem?,
}
use db_query_optimizer.Common.Text.{Text, bytes, text_eq}
use db_query_optimizer.Base.{
  ColumnType, type_integer, type_float, type_string, CompType, comp_eq, comp_in, comp_between,
  AggFunc, agg_count, agg_avg, ArithOp, arith_mod, TableColumn, OrderDescription, make_table,
  table_named, make_column,
}
use db_query_optimizer.Catalog.{get_ssb_column_type}
use db_query_optimizer.Ir.{
  ScalarValue, IrData, OpInfo, monostate, set_op, partner_column, NodeData, AbstractData, empty,
  Plan, Plans, null, node, nil, cons,
}
use db_query_optimizer.Ir.JoinView
use db_query_optimizer.Ir.SelectView
use db_query_optimizer.Ir.AggView
use db_query_optimizer.Ir.FetchView
use db_query_optimizer.Ir.FilterView
use db_query_optimizer.Ir.GroupView
use db_query_optimizer.Ir.SortOrderView
use db_query_optimizer.Ir.SetOpView
use db_query_optimizer.Ir.MapView
use db_query_optimizer.Ast as Ast
use db_query_optimizer.TransformHelpers.{
  map_string_to_comp_type, map_string_to_join_type, map_string_to_rel_op, map_string_to_agg_func,
  map_string_to_arith_op, parse_value_by_type,
}

-- `IrData` and `PlanNode` as they are made.
abbrev pub fresh_ir : IrData
fresh_ir = record {
  input_columns = [];
  output_cols = [];
  outputs_pos_list = false;
  outputs_mat_vals = false;
  op_info = monostate;
}

abbrev pub fresh_node : IrData → NodeData
fresh_node d = record { raw_json = none; abstract_data = empty; ir_data = d }

-- A column of the table of that name, of the type in the catalog.
unfoldable pub catalog_column : Text → Text → Option Text → TableColumn
unfolding make_column make_table
catalog_column table column alias =
    make_column (table_named table) column (get_ssb_column_type table column) alias

unfoldable pub select_columns : List Ast.SelectClauseDescription → List TableColumn
unfolding catalog_column
select_columns descriptions = map (λ d. catalog_column d.table d.column (some d.alias)) descriptions

unfoldable pub order_of : Ast.OrderByDescription → OrderDescription
unfolding catalog_column text_eq
order_of d = record {
  column = catalog_column d.table d.column none;
  order_type = not (text_eq d.ordertype (bytes "DESC"));
  null_ordering = text_eq d.nullordering (bytes "FIRST");
}

-- The type of an aggregation's result.
unfoldable pub agg_type : AggFunc → ColumnType → ColumnType
agg_type agg_count in_type = type_integer
agg_type agg_avg in_type = type_float
agg_type _ in_type = in_type

unfoldable pub aggregate_with : Ast.AggregateClauseNode → AggFunc → IrData
unfolding make_column make_table AggView.create agg_type
aggregate_with e f =
    AggView.create
      (make_column (table_named e.table) e.column (get_ssb_column_type e.table e.column)
        (some e.alias))
      (make_column (table_named (bytes "AGG"))
        (e.aggregate_function ++ (bytes "(" ++ (e.column ++ bytes ")")))
        (agg_type f (get_ssb_column_type e.table e.column)) (some e.alias))
      f

unfoldable pub aggregate_ir : Ast.AggregateClauseNode → IrData
unfolding aggregate_with
aggregate_ir e = elim (map_string_to_agg_func e.aggregate_function) [
  | none ↦ fresh_ir
  | some f ↦ aggregate_with e f
]

unfoldable pub is_string : ColumnType → Bool
is_string t = elim t [ type_string ↦ true | _ ↦ false ]

unfoldable pub is_integer : ColumnType → Bool
is_integer t = elim t [ type_integer ↦ true | _ ↦ false ]

unfoldable pub is_mod : ArithOp → Bool
is_mod op = elim op [ arith_mod ↦ true | _ ↦ false ]

-- The test before the throw.
unfoldable pub types_are_invalid : ColumnType → ColumnType → ArithOp → Bool
unfolding is_string is_integer is_mod
types_are_invalid t1 t2 op =
    is_string t1 || (is_string t2 || (is_mod op && not (is_integer t1 && is_integer t2)))

-- The computed result type is not used: the output is an integer column.
unfoldable pub map_ir : Ast.MapNode → Option IrData
unfolding types_are_invalid catalog_column make_column make_table MapView.create
map_ir e =
    if types_are_invalid (get_ssb_column_type e.table1 e.column1)
      (get_ssb_column_type e.table2 e.column2) (map_string_to_arith_op e.operator_type)
    then none
    else some (
        MapView.create (catalog_column e.table1 e.column1 none)
          (map_string_to_arith_op e.operator_type)
          (partner_column (catalog_column e.table2 e.column2 none))
          (make_column (table_named (bytes "MAP")) (e.column1 ++ (e.operator_type ++ e.column2))
            type_integer none))

unfoldable pub join_ir : Ast.TableJoinNode → IrData
unfolding catalog_column make_column make_table JoinView.create
join_ir e =
    JoinView.create (catalog_column e.on_left_table e.on_left_table_column none)
      (catalog_column e.on_right_table e.on_right_table_column none)
      (make_column (table_named (bytes "JOIN"))
        (e.on_left_table_column ++ (bytes "=" ++ e.on_right_table_column)) type_integer none)
      (map_string_to_join_type e.join_type) comp_eq

-- `!s.empty()`
unfoldable pub is_given : Text → Bool
is_given [] = false
is_given (c ∷ s) = true

-- A child is pushed where it is there.
unfoldable pub push_child : Plan → Plans → Plans
push_child null rest = rest
push_child (node d cs) rest = cons (node d cs) rest

-- `node->children[0]->irData.outputCols[0]` and the same of `children[1]`
unfoldable pub first_output : Plan → Option TableColumn
first_output null = none
first_output (node d cs) = get_elem? d.ir_data.output_cols 0

unfoldable pub child_outputs : Plans → Option (TableColumn × TableColumn)
unfolding first_output
child_outputs nil = none
child_outputs (cons p nil) = none
child_outputs (cons p (cons q rest)) = do a ← first_output p; b ← first_output q; some (a, b)

-- The assignments to `inputColumns[0]`, `inputColumns[1]` and `outputCols[0].columnType`.
unfoldable pub set_two : TableColumn → TableColumn → List TableColumn → Option (List TableColumn)
set_two a b [] = none
set_two a b (x ∷ []) = none
set_two a b (x ∷ y ∷ rest) = some (a ∷ b ∷ rest)

unfoldable pub set_type : ColumnType → List TableColumn → Option (List TableColumn)
set_type t [] = none
set_type t (x ∷ rest) = some (record x { column_type = t } ∷ rest)

unfoldable pub set_columns : IrData → Plans → Option IrData
unfolding child_outputs set_two set_type
set_columns d cs = elim d.op_info [
  | set_op op ↦ do
    outputs ← child_outputs cs
    inputs ← set_two outputs.0 outputs.1 d.input_columns
    output_cols ← set_type outputs.0.column_type d.output_cols
    some (record d { input_columns = inputs; output_cols = output_cols })
  | _ ↦ some d
]

module _ (stoull stof : Text → Option ℕ) where
  -- The filter's operator, second column and arguments.
  pub record FilterParts : Type 0 where
    pub op_type : CompType
    pub col2 : Option TableColumn
    pub filter_args : List ScalarValue

  unfoldable pub value_of : Ast.WhereClauseNode → Text → ScalarValue
  value_of e val = parse_value_by_type stoull stof val (get_ssb_column_type e.table e.column)

  unfoldable pub filter_parts : Ast.WhereClauseNode → FilterParts
  unfolding value_of is_given text_eq catalog_column
  filter_parts e =
      if text_eq e.operator_type (bytes "OR")
      then record {
        op_type = comp_in;
        col2 = none;
        filter_args =
            value_of e e.value ∷ (if is_given e.value2 then value_of e e.value2 ∷ [] else []);
      }
      else if text_eq e.operator_type (bytes "BETWEEN")
      then record {
        op_type = comp_between;
        col2 = none;
        filter_args = value_of e e.value ∷ value_of e e.value2 ∷ [];
      }
      else if is_given e.column && is_given e.column2
      then record {
        op_type = map_string_to_comp_type e.operator_type;
        col2 =
            some (catalog_column (if is_given e.table2 then e.table2 else e.table) e.column2 none);
        filter_args = [];
      }
      else record {
        op_type = map_string_to_comp_type e.operator_type;
        col2 = none;
        filter_args = value_of e e.value ∷ [];
      }

  unfoldable pub where_ir : Ast.WhereClauseNode → IrData
  unfolding filter_parts catalog_column FilterView.create
  where_ir e =
      FilterView.create (catalog_column e.table e.column none) (filter_parts e).op_type
        (filter_parts e).col2 (filter_parts e).filter_args (catalog_column e.table e.column none)

  -- A node by what it holds. A set operation's inputs are set after its children.
  unfoldable pub ast_data : Ast.AstValue → Option IrData
  unfolding select_columns order_of aggregate_ir map_ir where_ir join_ir catalog_column make_column
      make_table SelectView.create SortOrderView.create SortOrderView.generate_out_col
      GroupView.create GroupView.generate_out_col FetchView.create SetOpView.create
  ast_data (Ast.select_clause_node e) =
      some (SelectView.create (select_columns e.description) none [])
  ast_data (Ast.order_by_clause_node e) = some (
      SortOrderView.create (map order_of e.order_by_list)
        (SortOrderView.generate_out_col
          (map (λ d. catalog_column d.table d.column none) e.order_by_list))
        none)
  ast_data (Ast.group_by_clause_node e) = some (
      GroupView.create (map (λ d. catalog_column d.table d.column none) e.description) (
        GroupView.generate_out_col (map (λ d. catalog_column d.table d.column none) e.description)))
  ast_data (Ast.aggregate_clause_node e) = some (aggregate_ir e)
  ast_data (Ast.map_node e) = map_ir e
  ast_data (Ast.where_clause_node e) = some (where_ir e)
  ast_data (Ast.table_join_node e) = some (join_ir e)
  ast_data (Ast.set_operation_node e) =
      let dummy = make_column (table_named []) [] type_integer none in
      some (
        SetOpView.create dummy dummy
          (make_column (table_named []) e.set_operation type_integer none)
          (map_string_to_rel_op e.set_operation))
  ast_data (Ast.table_base_node e) = some (
      FetchView.create
        (make_column (make_table e.table_name (some e.table_alias) false []) [] type_integer none)
        true)
  ast_data (Ast.limit_clause_node e) = some fresh_ir
  ast_data Ast.monostate = some fresh_ir

  -- `astToIr`
  unfoldable pub ast_to_ir : Ast.AstNode → Option Plan
  unfolding ast_data push_child set_columns
  ast_to_ir Ast.null = some null
  ast_to_ir (Ast.node v left right) = do
    d ← ast_data v
    l ← ast_to_ir left
    r ← ast_to_ir right
    e ← set_columns d (push_child l (push_child r nil))
    some (node (fresh_node e) (push_child l (push_child r nil)))
