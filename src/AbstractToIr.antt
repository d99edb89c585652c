-- ===== src/AbstractToIr.antt =====
-- src/ir/abstract_to_ir.cpp: from the abstract plan to the plan. `none` is a thrown exception, or
-- an index out of range. A child is never null in the source; a null one is a fault here.
pub mod Sound
pub mod Items
pub mod Wired
pub mod Ready
use db_query_optimizer.Common.{
  ℕ, Bool, true, false, ◌&&◌, ◌||◌, not, Option, none, some, List, [], ◌∷◌, ◌++◌, map,
  if◌then◌else◌, ◌==◌, ◌>>=◌,
}
use db_query_optimizer.Common.Text.{Text, bytes, text_eq}
use db_query_optimizer.Base.{
  ColumnType, type_integer, type_float, type_string, AggFunc, TableColumn, OrderDescription,
  inner_join, table_named, make_column,
}
use db_query_optimizer.Catalog.{get_table_name, get_ssb_column_type}
use db_query_optimizer.Ir.{
  string_value, partner_column, IrData, AbstractData, AbstractSource, AbstractJoin, AbstractAgg,
  AbstractSort, AbstractResult, empty, source, join, agg, sort, result, NodeData, Plan, Plans, null,
  node, nil, cons,
}
use db_query_optimizer.Ir.JoinView
use db_query_optimizer.Ir.SelectView
use db_query_optimizer.Ir.AggView
use db_query_optimizer.Ir.FetchView
use db_query_optimizer.Ir.FilterView
use db_query_optimizer.Ir.GroupView
use db_query_optimizer.Ir.SortOrderView
use db_query_optimizer.Ir.MapView
use db_query_optimizer.TransformHelpers.{
  Mapping, map_string_to_comp_type, map_string_to_agg_func, map_string_to_arith_op,
  remove_all_whitespace, contains_arith_map_op, parse_mapping, JoinCondition, parse_join_condition,
  is_agg_column, get_first_token_string,
}
use db_query_optimizer.TransformHelpers.ConditionParser.{ParsedCondition, extract_alias}
use db_query_optimizer.AstToIr.{fresh_node, agg_type, is_string, is_integer}

-- Join.

unfoldable pub join_on : AbstractJoin → JoinCondition → IrData
unfolding make_column JoinView.create
join_on j c =
    JoinView.create
      (make_column (table_named j.left_table) c.left (get_ssb_column_type j.left_table c.left) none)
      (make_column (table_named j.right_table) c.right (get_ssb_column_type j.right_table c.right)
        none)
      (make_column (table_named (bytes "JOIN")) (c.left ++ (c.op ++ c.right)) type_integer none)
      inner_join (map_string_to_comp_type c.op)

unfoldable pub read_join : AbstractJoin → Option IrData
unfolding parse_join_condition join_on
read_join j = do c ← parse_join_condition j.condition; some (join_on j c)

-- Aggregation.

-- A column of the table that the catalog finds for its name.
unfoldable pub known_column : Text → TableColumn
unfolding get_table_name get_ssb_column_type make_column
known_column name =
    make_column (table_named (get_table_name name)) name
      (get_ssb_column_type (get_table_name name) name) none

unfoldable pub is_float : ColumnType → Bool
is_float t = elim t [ type_float ↦ true | _ ↦ false ]

-- The test before the throw: the source compares the operator's character with `ARITH_MOD`, which
-- is 5.
unfoldable pub mapping_is_invalid : ColumnType → ColumnType → ℕ → Bool
unfolding is_string is_integer
mapping_is_invalid t1 t2 op =
    is_string t1 || (is_string t2 || ((op == 5) && not (is_integer t1 && is_integer t2)))

unfoldable pub map_out : Mapping → TableColumn
unfolding known_column is_float make_column
map_out m =
    make_column (table_named (bytes "MAP")) (m.lhs ++ m.op ∷ m.rhs)
      (if is_float (known_column m.lhs).column_type || is_float (known_column m.rhs).column_type
        then type_float
        else type_integer)
      none

unfoldable pub map_of : Mapping → IrData
unfolding known_column map_out MapView.create
map_of m =
    MapView.create (known_column m.lhs) (map_string_to_arith_op (m.op ∷ []))
      (partner_column (known_column m.rhs)) (map_out m)

unfoldable pub checked_mapping : Mapping → Option (Option Mapping)
unfolding mapping_is_invalid known_column
checked_mapping m =
    if mapping_is_invalid (known_column m.lhs).column_type (known_column m.rhs).column_type m.op
    then none
    else some (some m)

-- The operands and the operator of the map, where the text has an arithmetic operator.
unfoldable pub map_item : Text → Option (Option Mapping)
unfolding contains_arith_map_op parse_mapping checked_mapping
map_item mapping =
    if contains_arith_map_op mapping then parse_mapping mapping >>= checked_mapping else some none

-- The aggregated column: the map's output, or the first name.
unfoldable pub agg_input : Text → Option Mapping → TableColumn
unfolding map_out get_first_token_string get_table_name make_column
agg_input mapping (some m) = map_out m
agg_input mapping none =
    let first = get_first_token_string mapping in
    make_column (table_named (get_table_name first)) first (get_ssb_column_type [] first) none

unfoldable pub agg_of : AbstractAgg → TableColumn → AggFunc → IrData
unfolding make_column agg_type AggView.create
agg_of a in_col f =
    AggView.create in_col
      (make_column (table_named (bytes "AGG"))
        (a.agg_type ++ (bytes "(" ++ (in_col.column_name ++ bytes ")")))
        (agg_type f in_col.column_type) (some a.agg_alias))
      f

-- The table of a column that may be the result of an aggregation.
unfoldable pub table_or_agg : Text → Text
unfolding get_table_name text_eq is_agg_column
table_or_agg name =
    if text_eq (get_table_name name) (bytes "Default") && is_agg_column name
    then bytes "AGG"
    else get_table_name name

unfoldable pub group_columns : List Text → List TableColumn
unfolding table_or_agg get_ssb_column_type make_column
group_columns names =
    map
      (λ name.
        make_column (table_named (table_or_agg name)) name
          (get_ssb_column_type (table_or_agg name) name) none)
      names

-- `abstractAggItems`: the map, the aggregation and the group, where they are there.
unfoldable pub map_items : Option Mapping → List IrData
unfolding map_of
map_items none = []
map_items (some m) = map_of m ∷ []

unfoldable pub func_items : AbstractAgg → TableColumn → List IrData
unfolding map_string_to_agg_func agg_of
func_items a in_col = elim (map_string_to_agg_func a.agg_type) [
  | none ↦ []
  | some f ↦ agg_of a in_col f ∷ []
]

unfoldable pub group_items : List Text → List IrData
unfolding group_columns GroupView.create GroupView.generate_out_col
group_items [] = []
group_items (c ∷ cs) =
    GroupView.create (group_columns (c ∷ cs)) (GroupView.generate_out_col (group_columns (c ∷ cs)))
    ∷ []

unfoldable pub agg_items : AbstractAgg → Option (List IrData)
unfolding map_item map_items func_items group_items agg_input
agg_items a = do
  m ← map_item a.agg_mapping
  some (map_items m ++ (func_items a (agg_input a.agg_mapping m) ++ group_items a.grouping_cols))

-- The loop that wires the items above the child, the last on top.
unfoldable pub wire_items : Plan → List IrData → Plan
wire_items prev_child [] = prev_child
wire_items prev_child (d ∷ ds) = wire_items (node (fresh_node d) (cons prev_child nil)) ds

-- `node->irData = prevChild->irData; node->children = prevChild->children;`
unfoldable pub take_over : NodeData → Plan → Option Plan
take_over d null = none
take_over d (node e es) = some (node (record d { ir_data = e.ir_data }) es)

unfoldable pub wired_agg : NodeData → AbstractAgg → Plans → Option Plan
unfolding agg_items wire_items take_over
wired_agg d a nil = none
wired_agg d a (cons p nil) = do items ← agg_items a; take_over d (wire_items p items)
wired_agg d a (cons p (cons q qs)) = none

-- Sort.

unfoldable pub optional_alias : Text → Option Text
optional_alias [] = none
optional_alias (c ∷ s) = some (c ∷ s)

unfoldable pub sort_column : Text → Text → TableColumn
unfolding table_or_agg get_ssb_column_type make_column optional_alias
sort_column name alias =
    make_column (table_named (table_or_agg name)) name (get_ssb_column_type [] name)
      (optional_alias alias)

-- The loop over `column_names`, with `aliases[i]` and `asc[i]`.
unfoldable pub orders : List Text → List Text → List Bool → Option (List OrderDescription)
unfolding sort_column
orders [] aliases asc = some []
orders (n ∷ ns) [] asc = none
orders (n ∷ ns) (a ∷ aliases) [] = none
orders (n ∷ ns) (a ∷ aliases) (b ∷ asc) = do
  rest ← orders ns aliases asc
  some (record { column = sort_column n a; order_type = b; null_ordering = false } ∷ rest)

unfoldable pub sorted_data : AbstractSort → Option IrData
unfolding orders SortOrderView.create SortOrderView.generate_out_col
sorted_data s = do
  os ← orders s.column_names s.aliases s.asc
  some (SortOrderView.create os (SortOrderView.generate_out_col (map (λ o. o.column) os)) none)

-- Result.

unfoldable pub result_column : Text → TableColumn
unfolding table_or_agg get_ssb_column_type extract_alias remove_all_whitespace make_column
result_column name =
    make_column (table_named (table_or_agg name)) (remove_all_whitespace (extract_alias name).name)
      (get_ssb_column_type [] name) (extract_alias name).alias

unfoldable pub selected_data : AbstractResult → IrData
unfolding result_column SelectView.create
selected_data r = SelectView.create (map result_column r.output_cols) none []

-- Source.

unfoldable pub filter_of : Text → ParsedCondition → IrData
unfolding get_ssb_column_type make_column FilterView.create map_string_to_comp_type
filter_of basetable c =
    let input_col =
      make_column (table_named basetable) c.column (get_ssb_column_type basetable c.column) none in
    FilterView.create input_col (map_string_to_comp_type c.op) none (map string_value c.arguments)
      input_col

unfoldable pub fetch_of : Text → IrData
unfolding make_column FetchView.create
fetch_of basetable =
    FetchView.create (make_column (table_named basetable) [] type_integer none) true

-- The filters from the second on, and the fetch below them.
unfoldable pub filter_chain : List IrData → IrData → Plan
filter_chain [] fetch = node (fresh_node fetch) nil
filter_chain (f ∷ fs) fetch = node (fresh_node f) (cons (filter_chain fs fetch) nil)

unfoldable pub source_node : NodeData → List IrData → IrData → Plan
unfolding filter_chain
source_node d [] fetch = node (record d { ir_data = fetch }) nil
source_node d (f ∷ fs) fetch = node (record d { ir_data = f }) (cons (filter_chain fs fetch) nil)

module _ (parse_condition : Text → Option ParsedCondition) where
  unfoldable pub filters_of : Text → List Text → Option (List IrData)
  unfolding filter_of
  filters_of basetable [] = some []
  filters_of basetable (f ∷ fs) = do
    c ← parse_condition f
    rest ← filters_of basetable fs
    some (filter_of basetable c ∷ rest)

  -- A node after its children, by its abstract data.
  unfoldable pub convert_by : NodeData → AbstractData → Plans → Option Plan
  unfolding filters_of fetch_of source_node read_join wired_agg sorted_data selected_data
  convert_by d empty cs = some (node d cs)
  convert_by d (source s) cs = do
    fs ← filters_of s.basetable s.filters
    some (source_node d fs (fetch_of s.basetable))
  convert_by d (join j) cs = do e ← read_join j; some (node (record d { ir_data = e }) cs)
  convert_by d (agg a) cs = wired_agg d a cs
  convert_by d (sort s) cs = do e ← sorted_data s; some (node (record d { ir_data = e }) cs)
  convert_by d (result r) cs = some (node (record d { ir_data = selected_data r }) cs)

  unfoldable mutual
    unfolding convert_by

    -- `abstractToIr`
    pub abstract_to_ir : Plan → Option Plan
    abstract_to_ir null = none
    abstract_to_ir (node d cs) = abstract_to_ir_all cs >>= λ cs'. convert_by d d.abstract_data cs'

    -- The loop over the children.
    pub abstract_to_ir_all : Plans → Option Plans
    abstract_to_ir_all nil = some nil
    abstract_to_ir_all (cons p ps) = do
      p' ← abstract_to_ir p
      ps' ← abstract_to_ir_all ps
      some (cons p' ps')
