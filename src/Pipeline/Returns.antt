-- ===== src/Pipeline/Returns.antt =====
-- About the composition of the passes: what each asks of a plan and what it gives to the next.
use db_query_optimizer.Common.{
  ℕ, suc, Option, some, List, [], ◌≡◌, refl, arith, ap, sym, subst, Option-cases, Bool-cases, inl,
  inr,
}
use db_query_optimizer.Common.Text.{Text}
use db_query_optimizer.Base.{Table}
use db_query_optimizer.Ir.{IrData, SortOp, GroupOp, NodeData, Plan, Plans, null, node, nil, cons}
use db_query_optimizer.Ir.Shape.{IsShaped, IsShapedPlan, AreShapedPlans, AllNodes, AllInPlans}
use db_query_optimizer.Optimizations.SemiJoin.{needed_below}
use db_query_optimizer.Optimizations.SemiJoin.Sound.{
  Rewritten, Placed, PlacedAll, place_semi_joins-Placed,
}
use db_query_optimizer.Optimizations.SortMerge.{
  absorb_sort, after_absorb, merged_group, successor, in_place_of, merge_children,
  merge_sort_into_group,
}
use db_query_optimizer.Optimizations.SortMerge.Keeps.{
  IsPlain, OpIsPlain, absorb_sort_cases, merge_sort-IsPlain,
}
use db_query_optimizer.Optimizations.AggMove.Count.{IsReady, AreReady, OpIsFed, plan_count}
use db_query_optimizer.Optimizations.AggMove.Conserved.{move_agg-Moved}
use db_query_optimizer.Ast as Ast
use db_query_optimizer.AstToIr.Plain.{ast_to_ir-IsReady}
use db_query_optimizer.AstToIr.Sound.{IsSound}
use db_query_optimizer.PostProcessing.{no_aliases, ensure_correct_column_setup}
use db_query_optimizer.PostProcessing.Columns.{ensure_correct_column_setup-IsReady, fed_again}
use db_query_optimizer.Pipeline.{
  ClientConfiguration, with_semi_joins, with_merged_sorts, optimize_plan, optimize_ast,
}

abbrev mutual
  -- Every aggregation has one child.
  AllFed : Plan → Type 0
  AllFed null = Unit
  AllFed (node d cs) = OpIsFed d.ir_data.op_info cs × AllFedIn cs

  AllFedIn : Plans → Type 0
  AllFedIn nil = Unit
  AllFedIn (cons p ps) = AllFed p × AllFedIn ps

mutual
  ready : (p : Plan) → AllNodes IsPlain p → AllFed p → IsReady p
  ready null h k = tt
  ready (node d cs) (h, hs) (k, ks) = (h, k, all_ready cs hs ks)

  all_ready : (ps : Plans) → AllInPlans IsPlain ps → AllFedIn ps → AreReady ps
  all_ready nil h k = tt
  all_ready (cons p ps) (h, hs) (k, ks) = (ready p h k, all_ready ps hs ks)

mutual
  nodes-IsPlain : (p : Plan) → IsReady p → AllNodes IsPlain p
  nodes-IsPlain null h = tt
  nodes-IsPlain (node d cs) (h, _, hs) = (h, children-IsPlain cs hs)

  children-IsPlain : (ps : Plans) → AreReady ps → AllInPlans IsPlain ps
  children-IsPlain nil h = tt
  children-IsPlain (cons p ps) (h, hs) = (nodes-IsPlain p h, children-IsPlain ps hs)

mutual
  fed_nodes : (p : Plan) → IsReady p → AllFed p
  fed_nodes null h = tt
  fed_nodes (node d cs) (_, h, hs) = (h, fed_children cs hs)

  fed_children : (ps : Plans) → AreReady ps → AllFedIn ps
  fed_children nil h = tt
  fed_children (cons p ps) (h, hs) = (fed_nodes p h, fed_children ps hs)

mutual
  shaped : (p : Plan) → IsReady p → IsShapedPlan p
  shaped null h = tt
  shaped (node d cs) ((h, _), _, hs) = (h, all_shaped cs hs)

  all_shaped : (ps : Plans) → AreReady ps → AreShapedPlans ps
  all_shaped nil h = tt
  all_shaped (cons p ps) (h, hs) = (shaped p h, all_shaped ps hs)

-- Semi-joins.

semi_count :
    (cs : Plans) (needed : List Table) (qs : Plans)
    → PlacedAll cs needed qs
    → plan_count qs ≡ plan_count cs
semi_count nil needed nil h = refl
semi_count nil needed (cons q qs) h = absurd h
semi_count (cons p ps) needed nil h = absurd h
semi_count (cons p ps) needed (cons q qs) (_, hs) = ap suc (semi_count ps needed qs hs)

op-OpIsPlain :
    (needed : List Table) (a b : IrData)
    → Rewritten needed a b
    → OpIsPlain a.op_info
    → OpIsPlain b.op_info
op-OpIsPlain needed a b (inl (e, _)) h = subst (λ d. OpIsPlain d.op_info) (sym e) h
op-OpIsPlain needed a b (inr s) h = subst OpIsPlain (sym s.is_semi_join) tt

op-OpIsFed :
    (needed : List Table) (a b : IrData) (cs : Plans)
    → Rewritten needed a b
    → OpIsFed a.op_info cs
    → OpIsFed b.op_info cs
op-OpIsFed needed a b cs (inl (e, _)) h = subst (λ d. OpIsFed d.op_info cs) (sym e) h
op-OpIsFed needed a b cs (inr s) h = subst (λ i. OpIsFed i cs) (sym s.is_semi_join) tt

mutual
  semi-IsReady :
      (p : Plan) (needed : List Table) (q : Plan)
      → IsReady p
      → Placed p needed q
      → IsShapedPlan q
      → IsReady q
  semi-IsReady null needed null h k s = tt
  semi-IsReady null needed (node e es) h k s = absurd k
  semi-IsReady (node d cs) needed null h k s = absurd k
  semi-IsReady (node d cs) needed (node e es) ((_, plain), fed, hs) (k, _, _, ks) (s, ss) = (
    (s, op-OpIsPlain needed d.ir_data e.ir_data k plain),
    op-OpIsFed needed d.ir_data e.ir_data es k (
        fed_again d.ir_data.op_info cs es (semi_count cs (needed_below d.ir_data needed) es ks)
          fed),
    semi-AreReady cs (needed_below d.ir_data needed) es hs ks ss,
  )

  semi-AreReady :
      (cs : Plans) (needed : List Table) (qs : Plans)
      → AreReady cs
      → PlacedAll cs needed qs
      → AreShapedPlans qs
      → AreReady qs
  semi-AreReady nil needed nil h k s = tt
  semi-AreReady nil needed (cons q qs) h k s = absurd k
  semi-AreReady (cons p ps) needed nil h k s = absurd k
  semi-AreReady (cons p ps) needed (cons q qs) (h, hs) (k, ks) (s, ss) =
      (semi-IsReady p needed q h k s, semi-AreReady ps needed qs hs ks ss)

with_semi_joins-IsReady :
    (config : ClientConfiguration) (p : Plan)
    → IsReady p
    → (q : Plan) × (with_semi_joins config p ≡ some q) × IsReady q
unfolding with_semi_joins
with_semi_joins-IsReady config p h = elim (Bool-cases config.semi_joins) [
  | inl e ↦
      let (q, r, k, s) = place_semi_joins-Placed p [] (shaped p h) in
      (q, rw (with_semi_joins, e) r, semi-IsReady p [] q h k s)
  | inr e ↦ (p, rw (with_semi_joins, e) refl, h)
]

-- Sorts.

merge_children-count :
    (parent : IrData) (cs : Plans) → plan_count (merge_children parent cs) ≡ plan_count cs
unfolding merge_children
merge_children-count parent nil = refl
merge_children-count parent (cons null ps) = ap suc (merge_children-count parent ps)
merge_children-count parent (cons (node d cs) ps) = ap suc (merge_children-count parent ps)

group_fed :
    (parent child : IrData) (sort : SortOp) (group : GroupOp) (cs : Plans)
    → OpIsFed (merged_group parent sort child group).op_info cs
unfolding merged_group
group_fed parent child sort group cs = tt

after_absorb-fed :
    (parent child : IrData) (cs : Plans)
    → OpIsFed child.op_info cs
    → OpIsFed (after_absorb parent child).op_info cs
unfolding after_absorb
after_absorb-fed parent child cs h = elim (Option-cases (absorb_sort parent child)) [
  | inl n ↦ rw (after_absorb, n) h
  | inr (d, e) ↦
      let (sort, group, _, _, _, ed) = absorb_sort_cases parent child d e in
      rw (after_absorb, e) (rw ed (group_fed parent child sort group cs))
]

successor-fed :
    (parent : IrData) (before after : Plans) (q : Plan)
    → AllFedIn after
    → successor parent before after ≡ some q
    → AllFed q
unfolding successor
successor-fed parent nil after q h e = cc
successor-fed parent (cons p ps) nil q h e = cc
successor-fed parent (cons null ps) (cons r rs) q (h, hs) e = successor-fed parent ps rs q hs e
successor-fed parent (cons (node d cs) ps) (cons r rs) q (h, hs) e =
    elim (Option-cases (successor parent ps rs)) [
      | inr (t, f) ↦ subst AllFed (ground arith) (successor-fed parent ps rs t hs f)
      | inl n ↦ subst AllFed (ground arith) h
    ]

in_place_of-fed :
    (d : NodeData) (before after : Plans)
    → OpIsFed d.ir_data.op_info after
    → AllFedIn after
    → AllFed (in_place_of d before after)
unfolding in_place_of
in_place_of-fed d before after h hs = elim (Option-cases (successor d.ir_data before after)) [
  | inl n ↦ rw (n, in_place_of) (h, hs)
  | inr (q, e) ↦ rw (e, in_place_of) (successor-fed d.ir_data before after q hs e)
]

merge_children-fed :
    (parent : IrData) (cs : Plans) → AllFedIn cs → AllFedIn (merge_children parent cs)
unfolding merge_children
merge_children-fed parent nil h = tt
merge_children-fed parent (cons null ps) (_, hs) = (tt, merge_children-fed parent ps hs)
merge_children-fed parent (cons (node d cs) ps) ((h, hc), hs) =
    let here = after_absorb parent d.ir_data in
    (
      in_place_of-fed (record d { ir_data = here }) cs (merge_children here cs)
          (fed_again here.op_info cs (merge_children here cs) (merge_children-count here cs)
            (after_absorb-fed parent d.ir_data cs h))
          (merge_children-fed here cs hc),
      merge_children-fed parent ps hs,
    )

merge_sort-fed : (p : Plan) → AllFed p → AllFed (merge_sort_into_group p)
unfolding merge_sort_into_group
merge_sort-fed null h = tt
merge_sort-fed (node d cs) (h, hs) =
    in_place_of-fed d cs (merge_children d.ir_data cs)
      (fed_again d.ir_data.op_info cs (merge_children d.ir_data cs)
        (merge_children-count d.ir_data cs) h)
      (merge_children-fed d.ir_data cs hs)

merge_sort-IsReady : (p : Plan) → IsReady p → IsReady (merge_sort_into_group p)
merge_sort-IsReady p h =
    ready (merge_sort_into_group p) (merge_sort-IsPlain p (nodes-IsPlain p h))
      (merge_sort-fed p (fed_nodes p h))

with_merged_sorts-IsReady :
    (config : ClientConfiguration) (p : Plan) → IsReady p → IsReady (with_merged_sorts config p)
unfolding with_merged_sorts
with_merged_sorts-IsReady config p h = elim (Bool-cases config.merge_subset_sort) [
  | inl e ↦ rw (with_merged_sorts, e) (merge_sort-IsReady p h)
  | inr e ↦ rw (with_merged_sorts, e) h
]

optimize_plan-returns :
    (config : ClientConfiguration) (p : Plan)
    → IsReady p
    → (q : Plan) × (optimize_plan config p ≡ some q) × AllNodes IsShaped q
unfolding optimize_plan
optimize_plan-returns config p h =
    let set_up = ensure_correct_column_setup-IsReady p no_aliases h in
    let (q, e, k) =
      with_semi_joins-IsReady config (ensure_correct_column_setup p no_aliases) set_up in
    let m = move_agg-Moved (with_merged_sorts config q) (with_merged_sorts-IsReady config q k) in
    (m.moved, rw (optimize_plan, e, m.runs) refl, m.shapes)

-- Under each setting of the two switches, a syntax tree whose maps have numbers as operands (whole
-- ones for a remainder), whose set operations have two children with an output column, and whose
-- aggregations have one child gets through `astToIr`, the column setup, the semi-joins, the merging of
-- the sorts and the moving of the aggregations: none of them throws or reads what is not there,
-- and every node of the last plan has the shape of its operator.
pub optimize_ast-returns :
    (stoull stof : Text → Option ℕ) (config : ClientConfiguration) (t : Ast.AstNode)
    → IsSound t
    → (q : Plan) × (optimize_ast stoull stof config t ≡ some q) × AllNodes IsShaped q
unfolding optimize_ast
optimize_ast-returns stoull stof config t h =
    let (p, e, _, k) = ast_to_ir-IsReady stoull stof t h in
    let (q, r, s) = optimize_plan-returns config p k in (q, rw (optimize_ast, e) r, s)
