-- ===== src/Catalog.antt =====
-- src/util/catalog.cpp: what is known of the Star Schema Benchmark's tables and columns.
pub mod Laws
use db_query_optimizer.Common.{Bool, true, false, ◌||◌, List, [], ◌∷◌, if◌then◌else◌}
use db_query_optimizer.Common.Text.{Text, bytes, text_eq, contains_text, one_of, to_lower}
use db_query_optimizer.Base.{ColumnType, type_integer, type_string}

abbrev pub lineorder_columns : List Text
lineorder_columns =
    bytes "lo_orderkey"
    ∷ bytes "lo_linenumber"
    ∷ bytes "lo_custkey"
    ∷ bytes "lo_partkey"
    ∷ bytes "lo_suppkey"
    ∷ bytes "lo_orderdate"
    ∷ bytes "lo_orderpriority"
    ∷ bytes "lo_shippriority"
    ∷ bytes "lo_quantity"
    ∷ bytes "lo_extendedprice"
    ∷ bytes "lo_ordtotalprice"
    ∷ bytes "lo_discount"
    ∷ bytes "lo_revenue"
    ∷ bytes "lo_supplycost"
    ∷ bytes "lo_tax"
    ∷ bytes "lo_commitdate"
    ∷ bytes "lo_shipmode"
    ∷ []

abbrev pub dates_columns : List Text
dates_columns =
    bytes "d_datekey"
    ∷ bytes "d_date"
    ∷ bytes "d_dayofweek"
    ∷ bytes "d_month"
    ∷ bytes "d_year"
    ∷ bytes "d_yearmonthnum"
    ∷ bytes "d_yearmonth"
    ∷ bytes "d_daynuminweek"
    ∷ bytes "d_daynuminmonth"
    ∷ bytes "d_daynuminyear"
    ∷ bytes "d_monthnuminyear"
    ∷ bytes "d_weeknuminyear"
    ∷ bytes "d_sellingseason"
    ∷ bytes "d_lastdayinweekfl"
    ∷ bytes "d_lastdayinmonthfl"
    ∷ bytes "d_holidayfl"
    ∷ bytes "d_weekdayfl"
    ∷ []

abbrev pub part_columns : List Text
part_columns =
    bytes "p_partkey"
    ∷ bytes "p_name"
    ∷ bytes "p_mfgr"
    ∷ bytes "p_category"
    ∷ bytes "p_brand"
    ∷ bytes "p_color"
    ∷ bytes "p_type"
    ∷ bytes "p_size"
    ∷ bytes "p_container"
    ∷ []

abbrev pub supplier_columns : List Text
supplier_columns =
    bytes "s_suppkey"
    ∷ bytes "s_name"
    ∷ bytes "s_address"
    ∷ bytes "s_city"
    ∷ bytes "s_nation"
    ∷ bytes "s_region"
    ∷ bytes "s_phone"
    ∷ []

abbrev pub customer_columns : List Text
customer_columns =
    bytes "c_custkey"
    ∷ bytes "c_name"
    ∷ bytes "c_address"
    ∷ bytes "c_city"
    ∷ bytes "c_nation"
    ∷ bytes "c_region"
    ∷ bytes "c_phone"
    ∷ bytes "c_mktsegment"
    ∷ []

-- `getTableName`
unfoldable pub get_table_name : Text → Text
unfolding one_of
get_table_name column_name =
    if one_of lineorder_columns column_name
    then bytes "lineorder"
    else if one_of dates_columns column_name
    then bytes "dates"
    else if one_of part_columns column_name
    then bytes "part"
    else if one_of supplier_columns column_name
    then bytes "supplier"
    else if one_of customer_columns column_name
    then bytes "customer"
    else bytes "Default"

-- `if (tableName.empty()) tableName = getTableName(columnName);`, on lowered names, and then
-- `if (tableName == "dates") tableName = "date";`
unfoldable pub resolve_table : Text → Text → Text
unfolding get_table_name
resolve_table table_name column_name =
    let name : Text = elim table_name [ [] ↦ get_table_name column_name | b ∷ s ↦ b ∷ s ] in
    if text_eq name (bytes "dates") then bytes "date" else name

-- The types of the columns of `lineorder`; every other name falls through to an integer.
unfoldable pub lineorder_type : Text → ColumnType
lineorder_type column_name =
    if contains_text column_name (bytes "key")
    then type_integer
    else if one_of
        (bytes "lo_linenumber"
          ∷ bytes "lo_quantity"
          ∷ bytes "lo_extendedprice"
          ∷ bytes "lo_ordtotalprice"
          ∷ bytes "lo_discount"
          ∷ bytes "lo_revenue"
          ∷ bytes "lo_supplycost"
          ∷ bytes "lo_tax"
          ∷ bytes "lo_orderdate"
          ∷ bytes "lo_commitdate"
          ∷ [])
        column_name
    then type_integer
    else if one_of (bytes "lo_orderpriority" ∷ bytes "lo_shippriority" ∷ bytes "lo_shipmode" ∷ [])
        column_name
    then type_string
    else type_integer

unfoldable pub part_type : Text → ColumnType
part_type column_name =
    if contains_text column_name (bytes "key")
    then type_integer
    else if text_eq column_name (bytes "p_size")
    then type_integer
    else type_string

-- The types of the columns of `supplier` and of `customer`.
unfoldable pub key_or_string : Text → ColumnType
key_or_string column_name =
    if contains_text column_name (bytes "key") then type_integer else type_string

unfoldable pub date_type : Text → ColumnType
date_type column_name =
    if contains_text column_name (bytes "key")
    then type_integer
    else if text_eq column_name (bytes "d_year")
    then type_integer
    else if text_eq column_name (bytes "d_yearmonthnum")
    then type_integer
    else if contains_text column_name (bytes "daynum")
    then type_integer
    else if contains_text column_name (bytes "monthnum")
    then type_integer
    else if contains_text column_name (bytes "weeknum")
    then type_integer
    else if contains_text column_name (bytes "fl")
    then type_integer
    else type_string

-- The tests of `getSSBColumnType` on the lowered and resolved names.
unfoldable pub type_in_table : Text → Text → ColumnType
unfolding lineorder_type part_type key_or_string date_type
type_in_table table_name column_name =
    if text_eq table_name (bytes "lineorder") || text_eq table_name (bytes "lo")
    then lineorder_type column_name
    else if text_eq table_name (bytes "part") || text_eq table_name (bytes "p")
    then part_type column_name
    else if text_eq table_name (bytes "supplier") || text_eq table_name (bytes "s")
    then key_or_string column_name
    else if text_eq table_name (bytes "customer") || text_eq table_name (bytes "c")
    then key_or_string column_name
    else if text_eq table_name (bytes "date")
        || (text_eq table_name (bytes "ddate") || text_eq table_name (bytes "d"))
    then date_type column_name
    else type_integer

-- `getSSBColumnType`
unfoldable pub get_ssb_column_type : Text → Text → ColumnType
get_ssb_column_type table_name column_name =
    type_in_table (resolve_table (to_lower table_name) (to_lower column_name))
      (to_lower column_name)

-- The tests of `isUnique` on the lowered and resolved names.
unfoldable pub unique_in_table : Text → Text → Bool
unique_in_table table_name column_name =
    if text_eq table_name (bytes "customer") || text_eq table_name (bytes "c")
    then text_eq column_name (bytes "c_custkey")
    else if text_eq table_name (bytes "part") || text_eq table_name (bytes "p")
    then text_eq column_name (bytes "p_partkey")
    else if text_eq table_name (bytes "supplier") || text_eq table_name (bytes "s")
    then text_eq column_name (bytes "s_suppkey")
    else if text_eq table_name (bytes "date") || text_eq table_name (bytes "d")
    then text_eq column_name (bytes "d_datekey")
    else false

-- `isUnique`
unfoldable pub is_unique : Text → Text → Bool
is_unique table_name column_name =
    unique_in_table (resolve_table (to_lower table_name) (to_lower column_name))
      (to_lower column_name)
