-- ===== src/Optimizations/SemiJoin/Sound.antt =====
-- `placeSemiJoins` on a plan of the right shape: it never faults, and each join's outcome is determined.
use db_query_optimizer.Common.{
  true, false, Option, none, some, List, [], ◌∷◌, length, ◌≡◌, ◌≢◌, ◌⊎◌, inl, inr, refl, arith,
  Bool-cases,
}
use db_query_optimizer.Base.{Table, TableColumn, table_lt}
use db_query_optimizer.Base.Sets.{contains}
use db_query_optimizer.Catalog.{is_unique}
use db_query_optimizer.Ir.{
  IrData, OpInfo, JoinOp, Plan, Plans, null, node, nil, cons, join_op, semi_join_op,
}
use db_query_optimizer.Ir.Shape.{IsShaped, IsShapedPlan, AreShapedPlans}
use db_query_optimizer.Ir.JoinView
use db_query_optimizer.Ir.SemiJoinView
use db_query_optimizer.Optimizations.SemiJoin.{
  convert_join, rewrite_join, needed_below, place_semi_joins, place_in_children,
}

-- A column whose table nothing above needs and which the catalog calls unique: a join with it
-- keeps or drops rows of the other side, and repeats none.
abbrev pub OnlyFilters : List Table → TableColumn → Type 0
OnlyFilters needed c =
    (contains table_lt c.table needed ≡ false) × (is_unique c.table.name c.column_name ≡ true)

-- `b` is the semi-join of the join `a`: the first side of it only filters, and the sides are those
-- of the join, each output beside its input: in the join's order, so that the inner side is the one
-- that only filters, or swapped, so that it is the outer one, where the inner one is needed above.
pub record IsSemiJoinOf (needed : List Table) (a b : IrData) : Type 0 where
  pub op : JoinOp
  pub was_join : a.op_info ≡ join_op op
  pub is_semi_join :
      b.op_info
      ≡ semi_join_op (record {
        join_type = op.join_type;
        join_predicate = op.join_predicate;
        output_col = op.output_col;
      })
  pub discarded : TableColumn
  pub kept : TableColumn
  pub discarded_out : TableColumn
  pub kept_out : TableColumn
  pub inputs : b.input_columns ≡ discarded ∷ kept ∷ []
  pub outputs : b.output_cols ≡ discarded_out ∷ kept_out ∷ []
  pub only_filters : OnlyFilters needed discarded
  pub same_sides :
      ((a.input_columns ≡ discarded ∷ kept ∷ []) × (a.output_cols ≡ discarded_out ∷ kept_out ∷ []))
      ⊎ ((a.input_columns ≡ kept ∷ discarded ∷ [])
          × (a.output_cols ≡ kept_out ∷ discarded_out ∷ [])
          × (contains table_lt kept.table needed ≡ true))

-- Nothing is to be converted: no join, or both sides are needed above, or the side that would be
-- discarded (the outer one if the inner one is needed, and else the inner one) is not unique.
abbrev pub StaysAsItIs : List Table → IrData → Type 0
StaysAsItIs needed a =
    (op : JoinOp) (inner outer : TableColumn)
    → a.op_info ≡ join_op op
    → a.input_columns ≡ inner ∷ outer ∷ []
    → ((contains table_lt inner.table needed ≡ true)
        × (contains table_lt outer.table needed ≡ true))
      ⊎ ((contains table_lt inner.table needed ≡ true)
          × (is_unique outer.table.name outer.column_name ≡ false))
      ⊎ ((contains table_lt inner.table needed ≡ false)
          × (is_unique inner.table.name inner.column_name ≡ false))

abbrev pub Rewritten : List Table → IrData → IrData → Type 0
Rewritten needed a b = ((b ≡ a) × StaysAsItIs needed a) ⊎ IsSemiJoinOf needed a b

two_elements {ℓ} :
    {A : Type ℓ} (xs : List A) → length xs ≡ 2 → (x : A) × (y : A) × (xs ≡ x ∷ y ∷ [])
two_elements [] h = absurd (omega arith)
two_elements (x ∷ []) h = absurd (omega arith)
two_elements (x ∷ y ∷ []) h = (x, y, refl)
two_elements (x ∷ y ∷ z ∷ r) h = absurd (omega arith)

-- What one node becomes.
abbrev Outcome : List Table → IrData → Option IrData → Type 0
Outcome needed a r = (b : IrData) × (r ≡ some b) × Rewritten needed a b × IsShaped b

module _ (needed : List Table) (a : IrData) (op : JoinOp) (x y u v : TableColumn)
    (is_join : a.op_info ≡ join_op op) (ins : a.input_columns ≡ x ∷ y ∷ [])
    (outs : a.output_cols ≡ u ∷ v ∷ []) where
  semi_data : List TableColumn → List TableColumn → IrData
  semi_data inputs outputs = record {
    input_columns = inputs;
    output_cols = outputs;
    outputs_pos_list = true;
    outputs_mat_vals = false;
    op_info = semi_join_op (record {
      join_type = op.join_type;
      join_predicate = op.join_predicate;
      output_col = op.output_col;
    });
  }

  of_join-semi_data : SemiJoinView.of_join a ≡ some (semi_data a.input_columns a.output_cols)
  unfolding SemiJoinView.of_join semi_data
  of_join-semi_data = rw is_join

  swap_sides-semi_data :
      SemiJoinView.swap_sides (semi_data a.input_columns a.output_cols)
      ≡ some (semi_data (y ∷ x ∷ []) (v ∷ u ∷ []))
  unfolding SemiJoinView.swap_sides semi_data
  swap_sides-semi_data = rw (ins, outs)

  join-IsShaped : IsShaped a
  join-IsShaped = rw (is_join, ins, outs) (refl, refl)

  unchanged : {r : Option IrData} → r ≡ some a → StaysAsItIs needed a → Outcome needed a r
  unchanged e s = (a, e, inl (refl, s), join-IsShaped)

  same_columns : (x' y' : TableColumn) → a.input_columns ≡ x' ∷ y' ∷ [] → (x' ≡ x) × (y' ≡ y)
  same_columns x' y' h = (cc, cc)

  stays :
      ((contains table_lt x.table needed ≡ true) × (contains table_lt y.table needed ≡ true))
        ⊎ ((contains table_lt x.table needed ≡ true)
            × (is_unique y.table.name y.column_name ≡ false))
        ⊎ ((contains table_lt x.table needed ≡ false)
            × (is_unique x.table.name x.column_name ≡ false))
      → StaysAsItIs needed a
  stays reason op' x' y' j i = rw ((same_columns x' y' i).0, (same_columns x' y' i).1) reason

  convert-Outcome :
      Outcome needed a
        (convert_join (contains table_lt x.table needed) (contains table_lt y.table needed) x y a)
  unfolding convert_join semi_data
  convert-Outcome = elim (Bool-cases (contains table_lt x.table needed)) [
    | inl nx ↦ elim (Bool-cases (contains table_lt y.table needed)) [
      | inl ny ↦ unchanged (rw (nx, ny)) (stays (inl (nx, ny)))
      | inr ny ↦ elim (Bool-cases (is_unique y.table.name y.column_name)) [
        | inl uy ↦ (
          semi_data (y ∷ x ∷ []) (v ∷ u ∷ []),
          rw (nx, ny, uy, of_join-semi_data) swap_sides-semi_data,
          inr (record {
            op = op;
            was_join = is_join;
            is_semi_join = refl;
            discarded = y;
            kept = x;
            discarded_out = v;
            kept_out = u;
            inputs = refl;
            outputs = refl;
            only_filters = (ny, uy);
            same_sides = inr (ins, outs, nx);
          }),
          (refl, refl),
        )
        | inr uy ↦ unchanged (rw (nx, ny, uy)) (stays (inr (inl (nx, uy))))
      ]
    ]
    | inr nx ↦ elim (Bool-cases (is_unique x.table.name x.column_name)) [
      | inl ux ↦ (
        semi_data a.input_columns a.output_cols,
        rw (nx, ux, of_join-semi_data),
        inr (record {
          op = op;
          was_join = is_join;
          is_semi_join = refl;
          discarded = x;
          kept = y;
          discarded_out = u;
          kept_out = v;
          inputs = ins;
          outputs = outs;
          only_filters = (nx, ux);
          same_sides = inl (ins, outs);
        }),
        rw (ins, outs) (refl, refl),
      )
      | inr ux ↦ unchanged (rw (nx, ux)) (stays (inr (inr (nx, ux))))
    ]
  ]

  rewrite_join-convert_join :
      rewrite_join needed a
      ≡ convert_join (contains table_lt x.table needed) (contains table_lt y.table needed) x y a
  unfolding rewrite_join JoinView.view_if JoinView.inner JoinView.outer
  rewrite_join-convert_join = ground arith

  join-Outcome : Outcome needed a (rewrite_join needed a)
  join-Outcome = rw rewrite_join-convert_join convert-Outcome

not_join-Outcome :
    (needed : List Table) (a : IrData)
    → JoinView.view_if a ≡ none
    → ((op : JoinOp) → a.op_info ≢ join_op op)
    → IsShaped a
    → Outcome needed a (rewrite_join needed a)
unfolding rewrite_join
not_join-Outcome needed a e other h =
    (a, ground arith, inl (refl, λ op x y j _. absurd (other op j)), h)

-- One node: a join becomes a semi-join or stays, as `Rewritten` says.
rewrite_join-Outcome :
    (needed : List Table) (a : IrData) → IsShaped a → Outcome needed a (rewrite_join needed a)
unfolding JoinView.view_if
rewrite_join-Outcome needed a h = go a.op_info refl
  where
    go : (i : OpInfo) → a.op_info ≡ i → Outcome needed a (rewrite_join needed a)
    go (join_op op) e =
        let shape : (length a.input_columns ≡ 2) × (length a.output_cols ≡ 2) = rw e at h in
        let (x, y, ins) = two_elements a.input_columns shape.0 in
        let (u, v, outs) = two_elements a.output_cols shape.1 in
        join-Outcome needed a op x y u v e ins outs
    go i e = not_join-Outcome needed a (ground arith) (λ op j. cc) h

abbrev mutual
  -- The plan after the pass, node by node: the tree is the same, and each node is rewritten for
  -- the tables that the nodes above it need.
  pub Placed : Plan → List Table → Plan → Type 0
  Placed null needed null = Unit
  Placed null needed (node d' cs') = ⊥
  Placed (node d cs) needed null = ⊥
  Placed (node d cs) needed (node d' cs') =
      Rewritten needed d.ir_data d'.ir_data
      × (d'.raw_json ≡ d.raw_json)
      × (d'.abstract_data ≡ d.abstract_data)
      × PlacedAll cs (needed_below d.ir_data needed) cs'

  pub PlacedAll : Plans → List Table → Plans → Type 0
  PlacedAll nil needed nil = Unit
  PlacedAll nil needed (cons p' ps') = ⊥
  PlacedAll (cons p ps) needed nil = ⊥
  PlacedAll (cons p ps) needed (cons p' ps') = Placed p needed p' × PlacedAll ps needed ps'

mutual
  unfolding place_semi_joins place_in_children

  plan-Placed :
      (p : Plan) (needed : List Table)
      → IsShapedPlan p
      → (q : Plan) × (place_semi_joins p needed ≡ some q) × Placed p needed q × IsShapedPlan q
  plan-Placed null needed h = (null, refl, tt, tt)
  plan-Placed (node d cs) needed (h, hs) =
      let (b, eb, rb, sb) = rewrite_join-Outcome needed d.ir_data h in
      let (ps, eps, rps, sps) = plans-Placed cs (needed_below d.ir_data needed) hs in
      (node (record d { ir_data = b }) ps, rw (eb, eps), (rb, refl, refl, rps), (sb, sps))

  plans-Placed :
      (cs : Plans) (needed : List Table)
      → AreShapedPlans cs
      → (qs : Plans) × (place_in_children cs needed ≡ some qs)
        × PlacedAll cs needed qs
        × AreShapedPlans qs
  plans-Placed nil needed h = (nil, refl, tt, tt)
  plans-Placed (cons p ps) needed (h, hs) =
      let (q, eq, rq, sq) = plan-Placed p needed h in
      let (qs, eqs, rqs, sqs) = plans-Placed ps needed hs in
      (cons q qs, rw (eq, eqs), (rq, rqs), (sq, sqs))

-- On a plan of the right shape the pass returns a plan, without reading a column that is not
-- there, and the plan is of the right shape. It is the same tree, and the same nodes but for joins. A
-- join whose inner side is not needed above becomes a semi-join that discards the inner side where the
-- catalog calls the inner column unique, and stays otherwise; one whose inner side is needed becomes a
-- semi-join that discards the outer side where the outer side is not needed and its column is unique,
-- and stays otherwise.
pub place_semi_joins-Placed :
    (p : Plan) (needed : List Table)
    → IsShapedPlan p
    → (q : Plan) × (place_semi_joins p needed ≡ some q) × Placed p needed q × IsShapedPlan q
place_semi_joins-Placed = plan-Placed
