-- ===== src/Tests/Queries.antt =====
-- The rewriting of a query with two join conditions and a predicate.
use db_query_optimizer.Common.{false, [], ◌∷◌, ◌++◌, ◌≡◌, refl, keep_if}
use db_query_optimizer.Common.Text.{Text, bytes, text_eq, one_of}
use db_query_optimizer.Ast.{
  AstNode, null, node, where_clause_node, WhereClauseNode, is_table_in_ast, is_join_condition,
  extract_predicate, build_join,
}
use db_query_optimizer.Ast.Extract.{conditions, is_predicate, HasNoCondition, extract_predicate_lem}
use db_query_optimizer.Ast.BuildJoin.{
  newest_first, LinksOneTable, IsLeftDeep, tables_of, build_join-IsLeftDeep,
}

abbrev condition : Text → Text → Text → Text → Text → WhereClauseNode
condition table column operator_type table2 column2 = record {
  table = table;
  column = column;
  operator_type = operator_type;
  table2 = table2;
  column2 = column2;
  value = [];
  value2 = [];
}

abbrev by_customer : WhereClauseNode
by_customer =
    condition (bytes "lineorder") (bytes "lo_custkey") (bytes "EQUAL") (bytes "customer")
      (bytes "c_custkey")

abbrev by_date : WhereClauseNode
by_date =
    condition (bytes "dates") (bytes "d_datekey") (bytes "EQUAL") (bytes "lineorder")
      (bytes "lo_orderdate")

abbrev in_asia : WhereClauseNode
in_asia = condition (bytes "customer") (bytes "c_region") (bytes "EQUAL") [] []

abbrev query : AstNode
query =
    node (where_clause_node in_asia)
      (node (where_clause_node by_customer) (node (where_clause_node by_date) null null) null) null

extract_predicate_lem_example :
    HasNoCondition (extract_predicate query [] []).root
    × ((extract_predicate query [] []).predicate ≡ [] ++ keep_if is_predicate (conditions query))
    × ((extract_predicate query [] []).join_cond
        ≡ [] ++ keep_if is_join_condition (conditions query))
extract_predicate_lem_example = extract_predicate_lem query [] []

date_links : LinksOneTable (by_customer.table ∷ by_customer.table2 ∷ []) (by_date ∷ [])
unfolding one_of text_eq
date_links = (refl, tt)

two_tables : text_eq by_customer.table by_customer.table2 ≡ false
unfolding text_eq
two_tables = refl

build_join-IsLeftDeep_example :
    IsLeftDeep
      (newest_first (by_customer ∷ by_date ∷ []) [])
      (build_join (by_customer ∷ by_date ∷ []))
    × ((t : Text)
        → is_table_in_ast (build_join (by_customer ∷ by_date ∷ [])) t
          ≡ one_of (tables_of (by_customer ∷ by_date ∷ []) []) t)
build_join-IsLeftDeep_example =
    build_join-IsLeftDeep by_customer (by_date ∷ []) two_tables date_links
