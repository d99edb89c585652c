-- ===== src/Ast.antt =====
-- include/parser/generate_AST.hpp and src/parser/optimizer_one.cpp: the syntax tree of a query, and
-- the rewriting of a cross product with join conditions into a chain of inner joins. A pointer to
-- a node is a tree, `null` where it is `nullptr`: each node is owned by one parent.
pub mod Extract
pub mod BuildJoin
use db_query_optimizer.Common.{
  ℕ, Bool, true, false, ◌&&◌, ◌||◌, not, Option, none, some, List, [], ◌∷◌, ◌++◌, if◌then◌else◌,
}
use db_query_optimizer.Common.Text.{Text, bytes, text_eq}

pub record TableJoinNode : Type 0 where
  pub join_type : Text
  pub on_left_table : Text
  pub on_left_table_column : Text
  pub on_right_table : Text
  pub on_right_table_column : Text

pub record TableBaseNode : Type 0 where
  pub table_name : Text
  pub table_alias : Text

pub record WhereClauseNode : Type 0 where
  pub table : Text
  pub column : Text
  pub operator_type : Text
  pub table2 : Text
  pub column2 : Text
  pub value : Text
  pub value2 : Text

pub record SelectClauseDescription : Type 0 where
  pub column : Text
  pub table : Text
  pub alias : Text

pub record SelectClauseNode : Type 0 where
  pub description : List SelectClauseDescription

pub record MapNode : Type 0 where
  pub table1 : Text
  pub column1 : Text
  pub table2 : Text
  pub column2 : Text
  pub operator_type : Text
  pub value : Text

pub record AggregateClauseNode : Type 0 where
  pub aggregate_function : Text
  pub alias : Text
  pub table : Text
  pub column : Text

pub record GroupByDescription : Type 0 where
  pub column : Text
  pub table : Text

pub record GroupByClauseNode : Type 0 where
  pub description : List GroupByDescription

pub record OrderByDescription : Type 0 where
  pub column : Text
  pub table : Text
  pub ordertype : Text
  pub nullordering : Text

pub record OrderByClauseNode : Type 0 where
  pub order_by_list : List OrderByDescription

pub record LimitClauseNode : Type 0 where
  pub limit : Text
  pub offset : Text

pub record SetOperationNode : Type 0 where
  pub set_operation : Text

-- `ASTNode::val`
pub data AstValue : Type 0 where
  monostate : AstValue
  set_operation_node : SetOperationNode → AstValue
  table_join_node : TableJoinNode → AstValue
  table_base_node : TableBaseNode → AstValue
  where_clause_node : WhereClauseNode → AstValue
  select_clause_node : SelectClauseNode → AstValue
  group_by_clause_node : GroupByClauseNode → AstValue
  order_by_clause_node : OrderByClauseNode → AstValue
  limit_clause_node : LimitClauseNode → AstValue
  map_node : MapNode → AstValue
  aggregate_clause_node : AggregateClauseNode → AstValue

-- `ASTNode*`: the value and the two children.
pub data AstNode : Type 0 where
  null : AstNode
  node : AstValue → AstNode → AstNode → AstNode

-- `std::get_if<WhereClauseNode>`
unfoldable pub where_of : AstValue → Option WhereClauseNode
where_of v = elim v [ where_clause_node e ↦ some e | _ ↦ none ]

-- `std::get_if<TableJoinNode>`
unfoldable pub join_of : AstValue → Option TableJoinNode
join_of v = elim v [ table_join_node j ↦ some j | _ ↦ none ]

-- `isTableInAST`
unfoldable pub is_table_in_ast : AstNode → Text → Bool
unfolding text_eq
is_table_in_ast null table = false
is_table_in_ast (node v left right) table =
    let in_left = is_table_in_ast left table in
    let in_right = is_table_in_ast right table in
    elim v [
      | table_base_node t ↦ text_eq t.table_name table
      | table_join_node j ↦ in_left || in_right
      | _ ↦ false
    ]

-- `e.operatorType == "EQUAL" && e.table2 != ""`
unfoldable pub is_join_condition : WhereClauseNode → Bool
unfolding text_eq
is_join_condition e = text_eq e.operator_type (bytes "EQUAL") && not (text_eq e.table2 [])

-- The tree that is left, and the two lists of copies (each a node of its own, without children).
pub record Extracted : Type 0 where
  pub root : AstNode
  pub predicate : List WhereClauseNode
  pub join_cond : List WhereClauseNode

-- `extractPredicate`
unfoldable pub extract_predicate : AstNode → List WhereClauseNode → List WhereClauseNode → Extracted
extract_predicate null predicate join_cond = record {
  root = null;
  predicate = predicate;
  join_cond = join_cond;
}
extract_predicate (node v left right) predicate join_cond = elim (where_of v) [
  | none ↦
      let l = extract_predicate left predicate join_cond in
      let r = extract_predicate right l.predicate l.join_cond in
      record { root = node v l.root r.root; predicate = r.predicate; join_cond = r.join_cond }
  | some e ↦
      let predicate' = if is_join_condition e then predicate else (predicate ++ e ∷ []) in
      let join_cond' = if is_join_condition e then (join_cond ++ e ∷ []) else join_cond in
      let l = extract_predicate left predicate' join_cond' in
      let r = extract_predicate right l.predicate l.join_cond in
      record { root = l.root; predicate = r.predicate; join_cond = r.join_cond }
]

-- `new ASTNode(TableBaseNode(name))`
unfoldable pub base_table : Text → AstNode
base_table name = node (table_base_node (record { table_name = name; table_alias = [] })) null null

-- `new ASTNode(TableJoinNode("JOININNER", ...))` with its children
unfoldable pub inner_join : Text → Text → Text → Text → AstNode → AstNode → AstNode
inner_join t1 c1 t2 c2 left right =
    node
      (table_join_node (record {
        join_type = bytes "JOININNER";
        on_left_table = t1;
        on_left_table_column = c1;
        on_right_table = t2;
        on_right_table_column = c2;
      }))
      left right

-- The loop of `buildJoin` over the conditions after the first.
unfoldable pub join_more : AstNode → List WhereClauseNode → AstNode
unfolding is_table_in_ast
join_more curr [] = curr
join_more curr (e ∷ es) =
    join_more
      (if is_table_in_ast curr e.table2
        then inner_join e.table2 e.column2 e.table e.column curr (base_table e.table)
        else inner_join e.table e.column e.table2 e.column2 curr (base_table e.table2))
      es

-- The join of the first condition: the same tree is built where it is the only one.
unfoldable pub first_join : WhereClauseNode → AstNode
first_join e =
    inner_join e.table e.column e.table2 e.column2 (base_table e.table) (base_table e.table2)

-- `buildJoin`
unfoldable pub build_join : List WhereClauseNode → AstNode
build_join [] = null
build_join (e ∷ es) = join_more (first_join e) es

-- `optimizeCrossProduct`
unfoldable pub optimize_cross_product : AstNode → AstNode → AstNode
optimize_cross_product null join_root = null
optimize_cross_product (node v left right) join_root =
    let rest = optimize_cross_product left join_root in
    elim (join_of v) [ some j ↦ join_root | none ↦ node v rest right ]
