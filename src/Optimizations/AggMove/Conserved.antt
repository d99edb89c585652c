-- ===== src/Optimizations/AggMove/Conserved.antt =====
-- Moving a sum into its group never faults on fed aggregations, keeps the shape of every node, and
-- loses and doubles no aggregation.
use db_query_optimizer.Common.{
  ℕ, suc, ◌+◌, ◌≤◌, true, false, some, ◌==◌, ◌≡◌, refl, sym, ◌∙◌, ap, arith, subst, Bool-cases, inl,
  inr,
}
use db_query_optimizer.Ir.{
  OpInfo, GroupOp, NodeData, Plan, Plans, null, node, nil, cons, group_op, agg_op, select_op,
}
use db_query_optimizer.Ir.Shape.{IsShaped, AllInPlans, agg_count, IsShapedPlan}
use db_query_optimizer.Optimizations.SortMerge.Keeps.{OpIsPlain}
use db_query_optimizer.Optimizations.AggMove.{finish_node, move_agg_into_group, move_in_children}
use db_query_optimizer.Optimizations.AggMove.Count.{
  agg_here, is_agg, scope, aggs, aggs_in, open_aggs, open_aggs_in, plan_count, agg_root, agg_roots,
  OpIsFed, RootIsFed, RootsAreFed, IsReady, AreReady, agg_roots-le-open_aggs_in,
}
use db_query_optimizer.Optimizations.AggMove.Pull.{Pulled, pulled}

-- The pass on the plan `p` gives the plan `moved` and counts `count` aggregations.
pub record Moved (p : Plan) : Type 0 where
  pub count : ℕ
  pub moved : Plan
  pub runs : move_agg_into_group p ≡ some (count, moved)
  pub counts : count ≡ open_aggs p
  pub conserved : aggs moved ≡ aggs p
  pub shapes : IsShapedPlan moved
  pub same_root : agg_root moved ≡ agg_root p
  pub fed : RootIsFed moved

record MovedAll (ps : Plans) : Type 0 where
  count : ℕ
  moved : Plans
  runs : move_in_children ps ≡ some (count, moved)
  counts : count ≡ open_aggs_in ps
  conserved : aggs_in moved ≡ aggs_in ps
  shapes : AllInPlans IsShaped moved
  same_roots : agg_roots moved ≡ agg_roots ps
  fed : RootsAreFed moved
  same_length : plan_count moved ≡ plan_count ps

==→eq : (a b : ℕ) → (a == b) ≡ true → a ≡ b
==→eq a b h = ground arith

-- `finish_node` gives `q` and counts `n`.
module _ (d : NodeData) (cs : Plans) (r : MovedAll cs) (shape : IsShaped d.ir_data) where
  moved_to :
      (n : ℕ) (q : Plan)
      → finish_node r.count d r.moved ≡ some (n, q)
      → n ≡ open_aggs (node d cs)
      → aggs q ≡ aggs (node d cs)
      → IsShapedPlan q
      → agg_root q ≡ agg_root (node d cs)
      → RootIsFed q
      → Moved (node d cs)
  unfolding move_agg_into_group
  moved_to n q runs counts conserved shapes same_root fed = record {
    count = n;
    moved = q;
    runs = rw r.runs runs;
    counts = counts;
    conserved = conserved;
    shapes = shapes;
    same_root = same_root;
    fed = fed;
  }

  -- The node stays, with its new children.
  moved_same :
      (n : ℕ)
      → finish_node r.count d r.moved ≡ some (n, node d r.moved)
      → n ≡ open_aggs (node d cs)
      → OpIsFed d.ir_data.op_info r.moved
      → Moved (node d cs)
  moved_same n runs counts fed =
      moved_to n (node d r.moved) runs counts (omega (arith, r.conserved)) (shape, r.shapes) refl
        fed

  group-Pulled :
      (op : GroupOp)
      → d.ir_data.op_info ≡ group_op op
      → r.count ≡ 1
      → Pulled d.ir_data r.moved
      → Moved (node d cs)
  unfolding finish_node
  group-Pulled op e one t =
      moved_to r.count (node (record d { ir_data = t.data' }) t.children) (ground (arith, t.runs))
        (r.counts ∙ sym (ap (λ i. scope i (open_aggs_in cs)) e))
        (omega (arith, t.total, ap agg_here t.is_group, r.conserved)) (t.shape, t.shapes)
        (ap is_agg t.is_group ∙ sym (ap is_agg e))
        (subst (λ i. OpIsFed i t.children) (sym t.is_group) tt)

  group_moves :
      (op : GroupOp) → d.ir_data.op_info ≡ group_op op → op.has_agg ≡ false → Moved (node d cs)
  unfolding finish_node
  group_moves op e lacks = elim (Bool-cases (r.count == 1)) [
    | inl one ↦
        let few : agg_roots r.moved + agg_count op.has_agg ≤ 1 = omega (
          arith,
          r.same_roots,
          agg_roots-le-open_aggs_in cs,
          r.counts,
          ==→eq r.count 1 one,
          ap agg_count lacks,
        ) in
        group-Pulled op e (==→eq r.count 1 one)
          (pulled r.moved d.ir_data op (e, rw e at shape, r.shapes, r.fed, few))
    | inr other ↦
        moved_same r.count (ground arith) (r.counts ∙ sym (ap (λ i. scope i (open_aggs_in cs)) e))
          (subst (λ i. OpIsFed i r.moved) (sym e) tt)
  ]

  -- A node of any other kind stays.
  other_moves :
      (i : OpInfo) (n : ℕ)
      → d.ir_data.op_info ≡ i
      → finish_node r.count d r.moved ≡ some (n, node d r.moved)
      → n ≡ scope i (open_aggs_in cs)
      → OpIsFed i r.moved
      → Moved (node d cs)
  other_moves i n e runs counts fed =
      moved_same n runs (counts ∙ sym (ap (λ i. scope i (open_aggs_in cs)) e))
        (subst (λ i. OpIsFed i r.moved) (sym e) fed)

  node_moves : OpIsPlain d.ir_data.op_info → OpIsFed d.ir_data.op_info cs → Moved (node d cs)
  unfolding finish_node
  node_moves plain fed = go d.ir_data.op_info refl
    where
      go : (i : OpInfo) → d.ir_data.op_info ≡ i → Moved (node d cs)
      go (group_op op) e = group_moves op e (rw e at plain)
      go (agg_op op) e =
          other_moves (agg_op op) (r.count + 1) e (ground arith) (omega (arith, r.counts))
            (r.same_length ∙ rw e at fed)
      go (select_op op) e = other_moves (select_op op) 0 e (ground arith) refl tt
      go i e = other_moves i r.count e (ground arith) r.counts tt

both_moves : (p : Plan) (ps : Plans) → Moved p → MovedAll ps → MovedAll (cons p ps)
unfolding move_in_children
both_moves p ps a b = record {
  count = a.count + b.count;
  moved = cons a.moved b.moved;
  runs = rw (a.runs, b.runs);
  counts = omega (arith, a.counts, b.counts);
  conserved = omega (arith, a.conserved, b.conserved);
  shapes = (a.shapes, b.shapes);
  same_roots = omega (arith, a.same_root, b.same_roots);
  fed = (a.fed, b.fed);
  same_length = ap suc b.same_length;
}

mutual
  unfolding move_agg_into_group move_in_children

  moves : (p : Plan) → IsReady p → Moved p
  moves null h = record {
    count = 0;
    moved = null;
    runs = refl;
    counts = refl;
    conserved = refl;
    shapes = tt;
    same_root = refl;
    fed = tt;
  }
  moves (node d cs) ((shape, plain), fed, hs) = node_moves d cs (moves_all cs hs) shape plain fed

  moves_all : (ps : Plans) → AreReady ps → MovedAll ps
  moves_all nil h = record {
    count = 0;
    moved = nil;
    runs = refl;
    counts = refl;
    conserved = refl;
    shapes = tt;
    same_roots = refl;
    fed = tt;
    same_length = refl;
  }
  moves_all (cons p ps) (h, hs) = both_moves p ps (moves p h) (moves_all ps hs)

-- On a plan of the right shape whose aggregations have one child each, whose groups have no
-- aggregation yet and whose sorts reuse no index, the pass returns, counts the aggregations in
-- scope, keeps every node's shape, and conserves the number of aggregations: those that leave as
-- nodes are in their groups.
pub move_agg-Moved : (p : Plan) → IsReady p → Moved p
move_agg-Moved = moves
