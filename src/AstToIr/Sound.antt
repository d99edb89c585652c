-- ===== src/AstToIr/Sound.antt =====
-- The syntax trees that have a plan, and the plan that mirrors one.
use db_query_optimizer.AstToIr.Stands.{StandsFor}
use db_query_optimizer.Common.Text.{Text}
use db_query_optimizer.Common.{ℕ, ◌≤◌, false, none, some, length, ◌≡◌}
use db_query_optimizer.Catalog.{get_ssb_column_type}
use db_query_optimizer.Ir.{Plan, null, node, nil}
use db_query_optimizer.TransformHelpers.{map_string_to_agg_func, map_string_to_arith_op}
use db_query_optimizer.Ast as Ast
use db_query_optimizer.AstToIr.{Option, types_are_invalid, push_child}

-- The children that are there.
abbrev pub child_count : Ast.AstNode → Ast.AstNode → ℕ
child_count Ast.null Ast.null = 0
child_count Ast.null (Ast.node v l r) = 1
child_count (Ast.node v l r) Ast.null = 1
child_count (Ast.node v l r) (Ast.node w s t) = 2

-- The plan node of the value has an output column.
abbrev pub ValueGivesOutput : Ast.AstValue → Type 0
ValueGivesOutput Ast.monostate = ⊥
ValueGivesOutput (Ast.limit_clause_node e) = ⊥
ValueGivesOutput (Ast.select_clause_node e) = 1 ≤ length e.description
ValueGivesOutput (Ast.aggregate_clause_node e) =
    elim (map_string_to_agg_func e.aggregate_function) [ none ↦ ⊥ | some f ↦ Unit ]
ValueGivesOutput _ = Unit

abbrev pub GivesOutput : Ast.AstNode → Type 0
GivesOutput Ast.null = ⊥
GivesOutput (Ast.node v l r) = ValueGivesOutput v

-- What a node asks of its value and its children: the operands of a map are numbers, and whole for a
-- remainder, a set operation has two children with an output column, and an aggregation has one
-- child.
abbrev pub NodeIsSound : Ast.AstValue → Ast.AstNode → Ast.AstNode → Type 0
NodeIsSound (Ast.map_node e) l r =
    types_are_invalid (get_ssb_column_type e.table1 e.column1)
      (get_ssb_column_type e.table2 e.column2) (map_string_to_arith_op e.operator_type)
    ≡ false
NodeIsSound (Ast.set_operation_node e) l r = GivesOutput l × GivesOutput r
NodeIsSound (Ast.aggregate_clause_node e) l r = child_count l r ≡ 1
NodeIsSound _ l r = Unit

abbrev pub IsSound : Ast.AstNode → Type 0
IsSound Ast.null = Unit
IsSound (Ast.node v l r) = NodeIsSound v l r × IsSound l × IsSound r

-- The plan is the syntax tree, node for node, with the node that stands for each value.
abbrev pub Mirrors : (Text → Option ℕ) → (Text → Option ℕ) → Ast.AstNode → Plan → Type 0
Mirrors stoull stof Ast.null null = Unit
Mirrors stoull stof Ast.null (node d cs) = ⊥
Mirrors stoull stof (Ast.node v l r) null = ⊥
Mirrors stoull stof (Ast.node v l r) (node d cs) =
    StandsFor stoull stof v cs d.ir_data
    × ((p : Plan) × (q : Plan) × (cs ≡ push_child p (push_child q nil))
        × Mirrors stoull stof l p
        × Mirrors stoull stof r q)
