-- ===== src/AbstractToIr/Ready.antt =====
-- The plan of an abstract plan, its tables and its shape.
use db_query_optimizer.Common.{
  Option, some, [], ◌++◌, map, length-map, length-append, ◌≡◌, refl, sym, arith, ap, ap₂, ◌∙◌,
}
use db_query_optimizer.Common.Text.{Text}
use db_query_optimizer.Ir.{
  AbstractData, empty, source, join, agg, sort, result, NodeData, Plan, Plans, null, node, nil,
  cons,
}
use db_query_optimizer.Ir.JoinView
use db_query_optimizer.Ir.SelectView
use db_query_optimizer.Ir.SortOrderView
use db_query_optimizer.Optimizations.AggMove.Count.{IsReady, AreReady, plan_count}
use db_query_optimizer.TransformHelpers.ConditionParser.{ParsedCondition}
use db_query_optimizer.AbstractToIr.{
  join_on, read_join, sorted_data, selected_data, convert_by, abstract_to_ir, abstract_to_ir_all,
}
use db_query_optimizer.AbstractToIr.Sound.{
  fetched, fetched_in, tables_of, sources, sources_in, DataIsSound, IsSound, AreSound,
}
use db_query_optimizer.AbstractToIr.Wired.{
  append_nil, AllThere, Fetches, wired_agg_lem, source_node_lem, orders_lem, filters_of_lem,
}

module _ (parse_condition : Text → Option ParsedCondition) where
  convert_lem :
      (d : NodeData) (a : AbstractData) (before cs : Plans)
      → DataIsSound parse_condition a d.ir_data before
      → plan_count cs ≡ plan_count before
      → AllThere cs
      → AreReady cs
      → Fetches (convert_by parse_condition d a cs) (tables_of a (fetched_in cs))
  unfolding convert_by read_join join_on JoinView.create sorted_data SortOrderView.create
      selected_data SelectView.create
  convert_lem d empty before cs h n t r =
      (node d cs, refl, tt, (rw (h) (tt, tt), rw (h) tt, r), rw (h) refl)
  convert_lem d (source s) before cs h n t r =
      let (fs, e, items) = filters_of_lem parse_condition s.basetable s.filters h in
      rw (e) (source_node_lem d s.basetable fs items)
  convert_lem d (join j) before cs (c, e) n t r =
      rw (read_join, e) (_, refl, tt, (((refl, refl), tt), tt, r), refl)
  convert_lem d (agg a) before nil (h, one) n t r = absurd (omega arith)
  convert_lem d (agg a) before (cons p nil) (h, one) n (t, _) (r, _) =
      wired_agg_lem d a p (fetched p ++ []) h t r (sym (append_nil (fetched p)))
  convert_lem d (agg a) before (cons p (cons q qs)) (h, one) n t r = absurd (omega arith)
  convert_lem d (sort s) before cs (h, k) n t r =
      let (os, e) = orders_lem s.column_names s.aliases s.asc h k in
      rw (sorted_data, e)
        (
          _,
          refl,
          tt,
          (
            (
              (
                omega (
                  arith,
                  length-append (map (λ o. o.column) os) [],
                  length-map os (λ o. o.column),
                ),
                refl,
              ),
              refl,
            ),
            tt,
            r,
          ),
          refl,
        )
  convert_lem d (result s) before cs h n t r = (_, refl, tt, ((refl, tt), tt, r), refl)

  mutual
    unfolding abstract_to_ir

    convert_all :
        (p : Plan)
        → IsSound parse_condition p
        → Fetches (abstract_to_ir parse_condition p) (sources p)
    convert_all null h = absurd h
    convert_all (node d cs) (h, hs) =
        let (qs, e, n, t, r, f) = convert_children cs hs in
        let (q, eq, tq, rq, fq) = convert_lem d d.abstract_data cs qs h n t r in
        (q, rw (abstract_to_ir, e) eq, tq, rq, fq ∙ ap (tables_of d.abstract_data) f)

    convert_children :
        (cs : Plans)
        → AreSound parse_condition cs
        → (qs : Plans) × (abstract_to_ir_all parse_condition cs ≡ some qs)
          × (plan_count qs ≡ plan_count cs)
          × AllThere qs
          × AreReady qs
          × (fetched_in qs ≡ sources_in cs)
    convert_children nil h = (nil, refl, refl, tt, tt, refl)
    convert_children (cons p ps) (h, hs) =
        let (q, e, t, r, f) = convert_all p h in
        let (qs, es, n, ts, rs, fs) = convert_children ps hs in
        (
          cons q qs,
          rw (abstract_to_ir_all, e, es) refl,
          omega arith,
          (t, ts),
          (r, rs),
          ap₂ (λ a b. a ++ b) f fs,
        )

-- On an abstract plan in which every filter and every join condition can be read, every mapping
-- with an operator has two operands of types that the operator takes, every aggregation has one
-- child, every sort has an alias and a direction for each column, and every other node is still
-- without data, `abstractToIr` returns a plan that fetches the tables of the sources, in their order,
-- and that is as the optimizations take it: every node has the shape of its operator.
pub abstract_to_ir-IsReady :
    (parse_condition : Text → Option ParsedCondition) (p : Plan)
    → IsSound parse_condition p
    → (q : Plan) × (abstract_to_ir parse_condition p ≡ some q) × IsReady q × (fetched q ≡ sources p)
abstract_to_ir-IsReady parse_condition p h =
    let (q, e, _, r, f) = convert_all parse_condition p h in (q, e, r, f)
