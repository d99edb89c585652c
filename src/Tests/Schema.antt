-- ===== src/Tests/Schema.antt =====
-- The theorems on tables, columns, sets and the catalog, at samples.
use db_query_optimizer.Common.{true, false, some, ◌≡◌, ◌≢◌, ◌↔◌, refl, arith}
use db_query_optimizer.Common.Text.{bytes, to_lower, text_eq}
use db_query_optimizer.Base.{Table, TableColumn, column_lt, column_eq, table_lt, type_integer}
use db_query_optimizer.Base.Order.{
  column_equivalent_iff, table_equivalent_iff, key_merges_aliases, column_eq-equivalent,
}
use db_query_optimizer.Base.Sets.{equivalent}
use db_query_optimizer.Catalog.{resolve_table, unique_in_table, is_unique, get_ssb_column_type}
use db_query_optimizer.Catalog.Laws.{case_insensitive, unique_column_type}
use db_query_optimizer.Tests.Samples.{table_of, column_of, lo_custkey}

abbrev nation_1 : Table
nation_1 = table_of (bytes "nation") (some (bytes "n1"))

abbrev nation_2 : Table
nation_2 = table_of (bytes "nation") (some (bytes "n2"))

abbrev name_1 : TableColumn
name_1 = column_of nation_1 (bytes "n_name")

abbrev name_2 : TableColumn
name_2 = column_of nation_2 (bytes "n_name")

column_equivalent_iff_example :
    (equivalent column_lt name_1 name_2 ≡ true)
    ↔ ((name_1.table.name ≡ name_2.table.name) × (name_1.column_name ≡ name_2.column_name))
column_equivalent_iff_example = column_equivalent_iff name_1 name_2

table_equivalent_iff_example :
    (equivalent table_lt nation_1 nation_2 ≡ true) ↔ (nation_1 ≡ nation_2)
table_equivalent_iff_example = table_equivalent_iff nation_1 nation_2

different_alias : some (bytes "n1") ≢ some (bytes "n2")
different_alias h = ground arith

key_merges_aliases_example :
    (equivalent column_lt name_1 name_2 ≡ true) × (column_eq name_1 name_2 ≡ false)
key_merges_aliases_example = key_merges_aliases name_1 name_2 refl refl different_alias

column_eq-equivalent_example : equivalent column_lt lo_custkey lo_custkey ≡ true
unfolding column_eq text_eq
column_eq-equivalent_example = column_eq-equivalent lo_custkey lo_custkey refl

case_insensitive_example :
    (is_unique (to_lower (bytes "Customer")) (to_lower (bytes "C_CustKey"))
      ≡ is_unique (bytes "Customer") (bytes "C_CustKey"))
    × (get_ssb_column_type (to_lower (bytes "Customer")) (to_lower (bytes "C_CustKey"))
        ≡ get_ssb_column_type (bytes "Customer") (bytes "C_CustKey"))
case_insensitive_example = case_insensitive (bytes "Customer") (bytes "C_CustKey")

unique_column_type_example :
    get_ssb_column_type (bytes "Customer") (bytes "C_CustKey") ≡ type_integer
unfolding is_unique text_eq to_lower unique_in_table resolve_table
unique_column_type_example = unique_column_type (bytes "Customer") (bytes "C_CustKey") refl
