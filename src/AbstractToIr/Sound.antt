-- ===== src/AbstractToIr/Sound.antt =====
-- The abstract plans that have a plan, and the tables of both.
use db_query_optimizer.Common.{
  ◌≤◌, true, false, Option, some, List, [], ◌∷◌, ◌++◌, map, length, All, ◌≡◌,
}
use db_query_optimizer.Common.Text.{Text}
use db_query_optimizer.Base.{TableColumn}
use db_query_optimizer.Ir.{
  IrData, OpInfo, monostate, fetch_op, AbstractData, empty, source, join, agg, sort, result, Plan,
  Plans, null, node, nil, cons,
}
use db_query_optimizer.Optimizations.AggMove.Count.{plan_count}
use db_query_optimizer.TransformHelpers.{
  Mapping, JoinCondition, contains_arith_map_op, parse_mapping, parse_join_condition,
}
use db_query_optimizer.TransformHelpers.ConditionParser.{ParsedCondition}
use db_query_optimizer.AbstractToIr.{known_column, mapping_is_invalid}

-- The texts of an aggregation can be read: a mapping with an operator has two operands, of types
-- that the operator takes.
abbrev pub MappingIsSound : Text → Type 0
MappingIsSound mapping =
    contains_arith_map_op mapping ≡ true
    → (m : Mapping) × (parse_mapping mapping ≡ some m)
      × (mapping_is_invalid (known_column m.lhs).column_type (known_column m.rhs).column_type m.op
          ≡ false)

-- The tables that a node fetches: the name of its column's table.
abbrev pub tables_here : OpInfo → List TableColumn → List Text
tables_here (fetch_op op) inputs = map (λ c. c.table.name) inputs
tables_here _ inputs = []

abbrev mutual
  -- The fetched tables, left to right.
  pub fetched : Plan → List Text
  fetched null = []
  fetched (node d cs) = tables_here d.ir_data.op_info d.ir_data.input_columns ++ fetched_in cs

  pub fetched_in : Plans → List Text
  fetched_in nil = []
  fetched_in (cons p ps) = fetched p ++ fetched_in ps

-- The tables of a node, over those of its children.
abbrev pub tables_of : AbstractData → List Text → List Text
tables_of (source s) below = s.basetable ∷ []
tables_of _ below = below

abbrev mutual
  -- The tables of the sources, left to right.
  pub sources : Plan → List Text
  sources null = []
  sources (node d cs) = tables_of d.abstract_data (sources_in cs)

  pub sources_in : Plans → List Text
  sources_in nil = []
  sources_in (cons p ps) = sources p ++ sources_in ps

module _ (parse_condition : Text → Option ParsedCondition) where
  -- What a node asks of its texts and its children.
  abbrev pub DataIsSound : AbstractData → IrData → Plans → Type 0
  DataIsSound empty d cs = d.op_info ≡ monostate
  DataIsSound (source s) d cs =
      All (λ f. (c : ParsedCondition) × (parse_condition f ≡ some c)) s.filters
  DataIsSound (join j) d cs = (c : JoinCondition) × (parse_join_condition j.condition ≡ some c)
  DataIsSound (agg a) d cs = MappingIsSound a.agg_mapping × (plan_count cs ≡ 1)
  DataIsSound (sort s) d cs =
      (length s.column_names ≤ length s.aliases) × (length s.column_names ≤ length s.asc)
  DataIsSound (result r) d cs = Unit

  abbrev mutual
    pub IsSound : Plan → Type 0
    IsSound null = ⊥
    IsSound (node d cs) = DataIsSound d.abstract_data d.ir_data cs × AreSound cs

    pub AreSound : Plans → Type 0
    AreSound nil = Unit
    AreSound (cons p ps) = IsSound p × AreSound ps
