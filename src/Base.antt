-- ===== src/Base.antt =====
-- The schema types of include/ir/base_types.hpp, and the enumerations of proto/WorkItem.proto.
-- Strings are byte lists; a `float` is its 32-bit pattern, since the program only stores and
-- forwards floats.
pub mod Lex
pub mod Maps
pub mod Order
pub mod Sets
use db_query_optimizer.Common.{Bool, true, false, ◌&&◌, ◌||◌, not, Option, none, some, [], ◌∷◌}
use db_query_optimizer.Common.{if◌then◌else◌, List}
use db_query_optimizer.Common.Text.{Text, text_eq, text_lt}

pub data ColumnType : Type 0 where
  type_integer type_float type_string type_bitmask type_poslist type_pair_poslist : ColumnType

pub data CompType : Type 0 where
  comp_lt comp_le comp_eq comp_ge comp_gt comp_ne comp_between comp_in : CompType

pub data AggFunc : Type 0 where
  agg_count agg_sum agg_min agg_max agg_avg : AggFunc

pub data RelOp : Type 0 where
  rel_union rel_intersection rel_negation : RelOp

pub data ArithOp : Type 0 where
  arith_add arith_sub arith_mul arith_div arith_mod : ArithOp

-- `BaseType::Join`
pub data Join : Type 0 where
  inner_join left_outer_join right_outer_join full_outer_join : Join

pub record Table : Type 0 where
  pub name : Text
  pub alias : Option Text
  pub is_virtual : Bool
  pub schema : Text

-- The constructors' `(alias.has_value() && alias->empty()) ? nullopt : alias`.
unfoldable pub normal_alias : Option Text → Option Text
normal_alias none = none
normal_alias (some []) = none
normal_alias (some (c ∷ s)) = some (c ∷ s)

-- `Table(name, alias, isVirtual, schema)`
unfoldable pub make_table : Text → Option Text → Bool → Text → Table
unfolding normal_alias
make_table name alias is_virtual schema = record {
  name = name;
  alias = normal_alias alias;
  is_virtual = is_virtual;
  schema = schema;
}

-- `Table(name)`
abbrev pub table_named : Text → Table
table_named name = make_table name none false []

-- `==` and `<` of `std::optional<std::string>`: no value comes before every value.
unfoldable pub option_eq : Option Text → Option Text → Bool
option_eq none none = true
option_eq none (some b) = false
option_eq (some a) none = false
option_eq (some a) (some b) = text_eq a b

unfoldable pub option_lt : Option Text → Option Text → Bool
option_lt none none = false
option_lt none (some b) = true
option_lt (some a) none = false
option_lt (some a) (some b) = text_lt a b

-- `false < true`
unfoldable pub bool_lt : Bool → Bool → Bool
bool_lt a b = not a && b

-- `Table::operator<`
unfoldable pub table_lt : Table → Table → Bool
unfolding option_eq option_lt bool_lt
table_lt a b =
    if not (text_eq a.schema b.schema)
    then text_lt a.schema b.schema
    else if not (text_eq a.name b.name)
    then text_lt a.name b.name
    else if not (option_eq a.alias b.alias)
    then option_lt a.alias b.alias
    else bool_lt a.is_virtual b.is_virtual

-- `Table::operator==`
unfoldable pub table_eq : Table → Table → Bool
unfolding option_eq
table_eq a b = text_eq a.name b.name && option_eq a.alias b.alias

pub record TableColumn : Type 0 where
  pub table : Table
  pub column_name : Text
  pub column_type : ColumnType
  pub alias : Option Text

-- `TableColumn(table, columnName, columnType, alias)`
unfoldable pub make_column : Table → Text → ColumnType → Option Text → TableColumn
unfolding normal_alias
make_column table column_name column_type alias = record {
  table = table;
  column_name = column_name;
  column_type = column_type;
  alias = normal_alias alias;
}

-- `TableColumn::operator<`
unfoldable pub column_lt : TableColumn → TableColumn → Bool
column_lt a b =
    if not (text_eq a.table.name b.table.name)
    then text_lt a.table.name b.table.name
    else if not (text_eq a.column_name b.column_name)
    then text_lt a.column_name b.column_name
    else false

-- `TableColumn::operator==`
unfoldable pub column_eq : TableColumn → TableColumn → Bool
unfolding table_eq
column_eq a b = table_eq a.table b.table && text_eq a.column_name b.column_name

-- `BaseType::OrderDescription`: `true` is ascending.
pub record OrderDescription : Type 0 where
  pub column : TableColumn
  pub order_type : Bool
  pub null_ordering : Bool
