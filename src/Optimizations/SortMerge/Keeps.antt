-- ===== src/Optimizations/SortMerge/Keeps.antt =====
-- Merging sorts into groups keeps the shape of every node.
use db_query_optimizer.Common.{
  ◌+◌, true, false, none, some, map, length, length-append, length-map, ◌≡◌, arith, subst,
  Option-cases, inl, inr,
}
use db_query_optimizer.Ir.{
  IrData, OpInfo, GroupOp, SortOp, NodeData, Plan, Plans, null, node, nil, cons, group_op, sort_op,
}
use db_query_optimizer.Ir.Shape.{IsShaped, GroupShape, AllNodes, AllInPlans}
use db_query_optimizer.Ir.GroupView
use db_query_optimizer.Ir.SortOrderView
use db_query_optimizer.Optimizations.SortMerge.{
  remaining_cols, is_subset, merged_group, absorb_sort, after_absorb, successor, in_place_of,
  merge_children, merge_sort_into_group,
}

-- No group has taken an aggregation in yet, and no sort reuses an index: as the plan builders and
-- the earlier passes leave the plan.
abbrev pub OpIsPlain : OpInfo → Type 0
OpIsPlain (group_op op) = op.has_agg ≡ false
OpIsPlain (sort_op op) = op.existing_idx ≡ none
OpIsPlain _ = Unit

abbrev pub IsPlain : IrData → Type 0
IsPlain d = IsShaped d × OpIsPlain d.op_info

view_if-sort :
    (d : IrData) (op : SortOp) → SortOrderView.view_if d ≡ some op → d.op_info ≡ sort_op op
unfolding SortOrderView.view_if
view_if-sort d op h = ground arith

view_if-group :
    (d : IrData) (op : GroupOp) → GroupView.view_if d ≡ some op → d.op_info ≡ group_op op
unfolding GroupView.view_if
view_if-group d op h = ground arith

module _ (parent child : IrData) where
  merged-IsPlain :
      (sort : SortOp) (group : GroupOp)
      → parent.op_info ≡ sort_op sort
      → child.op_info ≡ group_op group
      → IsPlain parent
      → IsPlain child
      → IsPlain (merged_group parent sort child group)
  unfolding merged_group
  merged-IsPlain sort group es eg hs hg =
      let ps : (length parent.input_columns
            ≡ length sort.column_list + elim sort.existing_idx [ none ↦ 0 | some _ ↦ 1 ])
          × (length parent.output_cols ≡ 1) =
        rw es at hs.0 in
      let ns : sort.existing_idx ≡ none = rw es at hs.1 in
      let pg : GroupShape group child.input_columns child.output_cols = rw eg at hg.0 in
      let columns : length parent.input_columns ≡ length sort.column_list + 0 = rw ns at ps.0 in
      let rest = remaining_cols parent.input_columns child.input_columns in
      let ng : group.has_agg ≡ false = rw eg at hg.1 in
      (
        (
          rw ng (
              omega (
                arith,
                length-append parent.input_columns rest,
                length-append (map (λ o. o.order_type) sort.column_list) (map (λ _. true) rest),
                length-map sort.column_list (λ o. o.order_type),
                length-map rest (λ _. true),
                columns,
              )),
          pg.1,
        ),
        ng,
      )

  -- A child that takes the sort over is a group, with all the sort's columns among its own.
  pub absorb_sort_cases :
      (d : IrData)
      → absorb_sort parent child ≡ some d
      → (sort : SortOp) × (group : GroupOp) × (parent.op_info ≡ sort_op sort)
        × (child.op_info ≡ group_op group)
        × (is_subset parent.input_columns child.input_columns ≡ true)
        × (d ≡ merged_group parent sort child group)
  unfolding absorb_sort
  absorb_sort_cases d h = elim (Option-cases (SortOrderView.view_if parent)) [
    | inl n ↦ absurd (ground arith)
    | inr (sort, e) ↦ elim (Option-cases (GroupView.view_if child)) [
      | inl n ↦ absurd (ground arith)
      | inr (group, f) ↦ (
        sort,
        group,
        view_if-sort parent sort e,
        view_if-group child group f,
        ground arith,
        ground arith,
      )
    ]
  ]

  absorbed-IsPlain :
      (d : IrData) → absorb_sort parent child ≡ some d → IsPlain parent → IsPlain child → IsPlain d
  absorbed-IsPlain d h hs hg =
      let (sort, group, es, eg, _, ed) = absorb_sort_cases d h in
      rw ed (merged-IsPlain sort group es eg hs hg)

  after_absorb-IsPlain : IsPlain parent → IsPlain child → IsPlain (after_absorb parent child)
  unfolding after_absorb
  after_absorb-IsPlain hs hg = elim (Option-cases (absorb_sort parent child)) [
    | inl n ↦ rw (n, after_absorb) hg
    | inr (d, e) ↦ rw (e, after_absorb) (absorbed-IsPlain d e hs hg)
  ]

-- The node that takes the place is one of the new children, or the node itself.
successor-IsPlain :
    (parent : IrData) (before after : Plans) (q : Plan)
    → AllInPlans IsPlain after
    → successor parent before after ≡ some q
    → AllNodes IsPlain q
unfolding successor
successor-IsPlain parent nil after q h e = cc
successor-IsPlain parent (cons p ps) nil q h e = cc
successor-IsPlain parent (cons null ps) (cons r rs) q (h, hs) e =
    successor-IsPlain parent ps rs q hs e
successor-IsPlain parent (cons (node d cs) ps) (cons r rs) q (h, hs) e =
    elim (Option-cases (successor parent ps rs)) [
      | inr (t, f) ↦ subst (AllNodes IsPlain) (ground arith) (successor-IsPlain parent ps rs t hs f)
      | inl n ↦ subst (AllNodes IsPlain) (ground arith) h
    ]

in_place_of-IsPlain :
    (d : NodeData) (before after : Plans)
    → IsPlain d.ir_data
    → AllInPlans IsPlain after
    → AllNodes IsPlain (in_place_of d before after)
unfolding in_place_of
in_place_of-IsPlain d before after h hs = elim (Option-cases (successor d.ir_data before after)) [
  | inl n ↦ rw (n, in_place_of) (h, hs)
  | inr (q, e) ↦ rw (e, in_place_of) (successor-IsPlain d.ir_data before after q hs e)
]

merge_children-IsPlain :
    (parent : IrData) (cs : Plans)
    → IsPlain parent
    → AllInPlans IsPlain cs
    → AllInPlans IsPlain (merge_children parent cs)
unfolding merge_children
merge_children-IsPlain parent nil h hs = tt
merge_children-IsPlain parent (cons null ps) h (_, hs) = (tt, merge_children-IsPlain parent ps h hs)
merge_children-IsPlain parent (cons (node d cs) ps) h ((hd, hc), hs) =
    let plain = after_absorb-IsPlain parent d.ir_data h hd in
    (
      in_place_of-IsPlain (record d { ir_data = after_absorb parent d.ir_data }) cs _ plain
          (merge_children-IsPlain (after_absorb parent d.ir_data) cs plain hc),
      merge_children-IsPlain parent ps h hs,
    )

-- On a plan of the right shape whose groups have no aggregation yet and whose sorts reuse no
-- index, merging the sorts keeps all this for every node: a group that took a sort over has a
-- direction for each of its columns.
pub merge_sort-IsPlain :
    (p : Plan) → AllNodes IsPlain p → AllNodes IsPlain (merge_sort_into_group p)
unfolding merge_sort_into_group
merge_sort-IsPlain null h = tt
merge_sort-IsPlain (node d cs) (h, hs) =
    in_place_of-IsPlain d cs _ h (merge_children-IsPlain d.ir_data cs h hs)
