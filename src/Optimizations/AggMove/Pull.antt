-- ===== src/Optimizations/AggMove/Pull.antt =====
-- The loop that takes a sum into its group: it never faults on fed aggregations, keeps the shape of
-- the nodes, and loses no aggregation.
use db_query_optimizer.Common.{
  ◌+◌, ◌≤◌, true, false, some, List, [], ◌∷◌, length, ◌≡◌, refl, ap, arith, subst, Bool-cases, inl,
  inr,
}
use db_query_optimizer.Base.{TableColumn}
use db_query_optimizer.Ir.{
  IrData, OpInfo, GroupOp, AggOp, NodeData, Plan, Plans, null, node, nil, cons, group_op, agg_op,
}
use db_query_optimizer.Ir.Shape.{
  IsShaped, GroupShape, AllNodes, AllInPlans, agg_count, set_agg-IsShaped,
}
use db_query_optimizer.Ir.AggView
use db_query_optimizer.Ir.GroupView
use db_query_optimizer.Optimizations.AggMove.{is_sum, first_child, set_agg_of, pull_sums}
use db_query_optimizer.Optimizations.AggMove.Count.{
  agg_here, aggs_in, agg_roots, plan_count, RootsAreFed, only_child,
}

-- What the loop gives for the group `d` and its children.
pub record Pulled (d : IrData) (cs : Plans) : Type 0 where
  pub data' : IrData
  pub children : Plans
  pub op : GroupOp
  pub runs : pull_sums d cs ≡ some (data', children)
  pub is_group : data'.op_info ≡ group_op op
  pub shape : IsShaped data'
  pub shapes : AllInPlans IsShaped children
  pub total : agg_count op.has_agg + aggs_in children ≡ agg_here d.op_info + aggs_in cs

one_element {ℓ} : {A : Type ℓ} (xs : List A) → length xs ≡ 1 → (x : A) × (xs ≡ x ∷ [])
one_element [] h = absurd (omega arith)
one_element (x ∷ []) h = (x, refl)
one_element (x ∷ y ∷ r) h = absurd (omega arith)

-- The loop can start: `d` is a group of the right shape, the children are, and at most one
-- aggregation is there for the group.
abbrev CanPull : IrData → GroupOp → Plans → Type 0
CanPull d op cs =
    (d.op_info ≡ group_op op)
    × GroupShape op d.input_columns d.output_cols
    × AllInPlans IsShaped cs
    × RootsAreFed cs
    × (agg_roots cs + agg_count op.has_agg ≤ 1)

module _ (d : IrData) (op : GroupOp) (is_group : d.op_info ≡ group_op op) where
  -- The group after `setAgg`.
  with_agg : TableColumn → TableColumn → IrData
  with_agg x y = set_agg_of d x y

  with_agg-shape :
      (x y : TableColumn)
      → op.has_agg ≡ false
      → GroupShape op d.input_columns d.output_cols
      → (e : GroupOp) × ((with_agg x y).op_info ≡ group_op e)
        × (e.has_agg ≡ true)
        × IsShaped (with_agg x y)
  unfolding with_agg set_agg_of GroupView.view_if
  with_agg-shape x y lacks shape =
      let e : set_agg_of d x y ≡ GroupView.set_agg op x y d = ground arith in
      (
        record op { has_agg = true },
        unfold GroupView.set_agg in ground arith,
        refl,
        rw e (set_agg-IsShaped d op x y is_group shape),
      )

-- A child that stays.
keep_child :
    (d : IrData) (p : Plan) (ps : Plans) (r : Pulled d ps)
    → AllNodes IsShaped p
    → pull_sums d (cons p ps) ≡ some (r.data', cons p r.children)
    → Pulled d (cons p ps)
keep_child d p ps r shape runs = record {
  data' = r.data';
  children = cons p r.children;
  op = r.op;
  runs = runs;
  is_group = r.is_group;
  shape = r.shape;
  shapes = (shape, r.shapes);
  total = omega (arith, r.total);
}

module _ (d : IrData) (op : GroupOp) (c : NodeData) (xs ps : Plans)
    (again : (e : IrData) (f : GroupOp) → CanPull e f ps → Pulled e ps) where
  sum_runs :
      (agg : AggOp) (x y : TableColumn) (p : Plan) (d' : IrData) (rest : Plans)
      → AggView.view_if c.ir_data ≡ some agg
      → is_sum agg.agg_func ≡ true
      → AggView.col_to_agg c.ir_data ≡ some x
      → AggView.agg_result_col c.ir_data ≡ some y
      → first_child xs ≡ some p
      → pull_sums (set_agg_of d x y) ps ≡ some (d', rest)
      → pull_sums d (cons (node c xs) ps) ≡ some (d', cons p rest)
  unfolding pull_sums
  sum_runs agg x y p d' rest view sum col result child runs = ground arith

  -- A sum below the group moves into it: the columns `x` and `y`, and the child `p`, are its own.
  pull_sum_of :
      (agg : AggOp) (x y : TableColumn) (p : Plan)
      → c.ir_data.op_info ≡ agg_op agg
      → is_sum agg.agg_func ≡ true
      → c.ir_data.input_columns ≡ x ∷ []
      → c.ir_data.output_cols ≡ y ∷ []
      → xs ≡ cons p nil
      → op.has_agg ≡ false
      → agg_roots ps ≡ 0
      → CanPull d op (cons (node c xs) ps)
      → Pulled d (cons (node c xs) ps)
  unfolding with_agg
  pull_sum_of agg x y p e sum ex ey exs lacks no_more (is_group, shape, (sc, sps), (fc, fps), few) =
      let (f, gf, hf, sf) = with_agg-shape d op is_group x y lacks shape in
      let room : agg_roots ps + agg_count f.has_agg ≤ 1 = omega (arith, no_more, ap agg_count hf) in
      let r : Pulled (set_agg_of d x y) ps =
        again (set_agg_of d x y) f (gf, rw gf at sf, sps, fps, room) in
      record {
        data' = r.data';
        children = cons p r.children;
        op = r.op;
        runs =
            sum_runs agg x y p r.data' r.children (unfold AggView.view_if in ground arith) sum
              (unfold AggView.col_to_agg in rw ex) (unfold AggView.agg_result_col in rw ey)
              (unfold first_child in rw exs) r.runs;
        is_group = r.is_group;
        shape = r.shape;
        shapes = ((subst (AllInPlans IsShaped) exs sc.1).0, r.shapes);
        total = omega (
          arith,
          r.total,
          ap agg_here gf,
          ap agg_count hf,
          ap agg_here is_group,
          ap agg_count lacks,
          ap agg_here e,
          ap aggs_in exs,
        );
      }

  pull_sum :
      (agg : AggOp)
      → c.ir_data.op_info ≡ agg_op agg
      → is_sum agg.agg_func ≡ true
      → CanPull d op (cons (node c xs) ps)
      → Pulled d (cons (node c xs) ps)
  pull_sum agg e sum (is_group, shape, (sc, sps), (fc, fps), few) =
      let shape_c : (length c.ir_data.input_columns ≡ 1) × (length c.ir_data.output_cols ≡ 1) =
        rw e at sc.0 in
      let fed : plan_count xs ≡ 1 = rw e at fc in
      let few' : 1 + agg_roots ps + agg_count op.has_agg ≤ 1 = rw e at few in
      let (x, ex) = one_element c.ir_data.input_columns shape_c.0 in
      let (y, ey) = one_element c.ir_data.output_cols shape_c.1 in
      let (p, exs) = only_child xs fed in
      pull_sum_of agg x y p e sum ex ey exs (ground arith) (omega arith)
        (is_group, shape, (sc, sps), (fc, fps), few)

  stays :
      ((d' : IrData) (rest : Plans)
        → pull_sums d ps ≡ some (d', rest)
        → pull_sums d (cons (node c xs) ps) ≡ some (d', cons (node c xs) rest))
      → CanPull d op (cons (node c xs) ps)
      → Pulled d (cons (node c xs) ps)
  stays runs (is_group, shape, (sc, sps), (fc, fps), few) =
      let r : Pulled d ps = again d op (is_group, shape, sps, fps, omega arith) in
      keep_child d (node c xs) ps r sc (runs r.data' r.children r.runs)

  pull_step : CanPull d op (cons (node c xs) ps) → Pulled d (cons (node c xs) ps)
  unfolding pull_sums AggView.view_if
  pull_step can = go c.ir_data.op_info refl
    where
      go : (i : OpInfo) → c.ir_data.op_info ≡ i → Pulled d (cons (node c xs) ps)
      go (agg_op agg) e = elim (Bool-cases (is_sum agg.agg_func)) [
        | inl sum ↦ pull_sum agg e sum can
        | inr other ↦ stays (λ d' rest r. ground arith) can
      ]
      go i e = stays (λ d' rest r. ground arith) can

-- On a group of the right shape the loop returns, and loses no aggregation.
pub pulled : (ps : Plans) (d : IrData) (op : GroupOp) → CanPull d op ps → Pulled d ps
unfolding pull_sums
pulled nil d op (is_group, shape, _, _, _) = record {
  data' = d;
  children = nil;
  op = op;
  runs = refl;
  is_group = is_group;
  shape = rw is_group shape;
  shapes = tt;
  total = omega (arith, ap agg_here is_group);
}
pulled (cons null ps) d op (is_group, shape, (_, sps), (_, fps), few) =
    let r : Pulled d ps = pulled ps d op (is_group, shape, sps, fps, omega arith) in
    keep_child d null ps r tt (rw r.runs)
pulled (cons (node c xs) ps) d op can = pull_step d op c xs ps (pulled ps) can
