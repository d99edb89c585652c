-- ===== src/Materialize/Fill/Finish.antt =====
-- About the end of a visit: the copies of fetches, the new children and the node.
use db_query_optimizer.Materialize.Fetches.{fetch-op, not_fetch, refetched-IsNode}
use db_query_optimizer.Materialize.Fill.Values.{IsHeld-Grown, put-IsHeld, IsHeld, HoldsNodes}
use db_query_optimizer.Heap.FilterCol.Found.{All-below}
use db_query_optimizer.Common.Text.{text_eq}
use db_query_optimizer.Materialize.{rename_fetch}
use db_query_optimizer.Ir.Shape.{OpShape, IsShaped}
use db_query_optimizer.Base.Sets.{insert}
use db_query_optimizer.Base.Maps.Held.{value_at-Points}
use db_query_optimizer.Materialize.Shared.{IsRenamed-trans, rename_fetch-Sound, IsRenamed}
use db_query_optimizer.Base.Maps.{value_at, put, Map}
use db_query_optimizer.Base.{table_lt, column_lt, TableColumn}
use db_query_optimizer.Common.{
  ◌∙◌, Bool-cases, subst, ◌≤◌, ◌≡◌, suc, All, ap, true, arith, inl, false, Bool, inr, Option-cases,
  length, ◌<◌, ℕ, [], ◌∷◌, List, refl, none, some,
}
use db_query_optimizer.Ir.{fetch_op, FetchOp, IrData}
use db_query_optimizer.Ir.FetchView
use db_query_optimizer.Heap.{Cmd, alloc, no_input, plan_node, Heap, PlanNode, ◌>>=◌, pure}
use db_query_optimizer.Heap.Valid.{
  weaken, wired_if, IsNode, at_eq, refine, get_elem-returns, report-Sound, Grown-trans, alloc-Sound,
  Grown-refl, sound, step, IsHeap, Sound, Unprovided,
}
use db_query_optimizer.Materialize.Fill.{
  finish_fill, provide_values, copy_fetch, MaterializationData,
}

-- One child for each column, unless one was reported missing.
abbrev pub IsFilled : ℕ → List ℕ → Heap → Type 0
IsFilled n cs k = All (λ c. c < length k.nodes) cs × (length k.missing ≡ 0 → length cs ≡ n)

pub provide_values-Sound :
    (cs : List TableColumn) (m : Map TableColumn) (h : Heap)
    → IsHeap h
    → IsHeld m h
    → Sound Unprovided h (IsFilled (length cs)) (provide_values cs m h)
unfolding provide_values
provide_values-Sound [] m h valid held = sound valid (Grown-refl h) (tt, (λ e. refl))
provide_values-Sound (c ∷ cs) m h valid held = elim (Option-cases (value_at column_lt c m)) [
  | inr (a, e) ↦
      let lt = value_at-Points column_lt (λ b. b < length h.nodes) c m a held e in
      rw (provide_values, e)
        (step {f = λ rest. pure (a ∷ rest)} (provide_values-Sound cs m h valid held)
          (λ rest k v g p.
            sound v (Grown-refl k) ((omega (arith, g.0, lt), p.0), (λ z. ap suc (p.1 z)))))
  | inl e ↦
      rw (provide_values, e)
        (step {f = λ u. provide_values cs m} (report-Sound c h valid) (λ u k v g some_missing.
          refine (provide_values-Sound cs m k v (IsHeld-Grown m h k g held))
            (λ r l i p. (p.0, (λ z. absurd (omega (arith, i.1, some_missing, z)))))))
]

-- The renamed fetch, and the entries with its copies.
abbrev pub IsCopied : IrData → IrData × Map TableColumn → Heap → Type 0
IsCopied d r k = IsRenamed d r.0 × IsHeld r.1 k

-- What the loop keeps for the columns that are left.
abbrev pub Copies : List TableColumn → FetchOp → List ℕ → Type 0
Copies fs op children =
    (d : IrData) (m : Map TableColumn) (h : Heap)
    → IsHeap h
    → IsShaped d
    → d.op_info ≡ fetch_op op
    → All (λ c. c < length h.nodes) children
    → IsHeld m h
    → Sound Unprovided h (IsCopied d) (copy_fetch fs d children m h)

copy_match :
    (f : TableColumn) (fs : List TableColumn) (op : FetchOp) (children : List ℕ)
    → Copies fs op children
    → (d : IrData) (m : Map TableColumn) (h : Heap) → IsHeap h
    → IsShaped d
    → 1 ≤ length d.input_columns
    → 1 ≤ length d.output_cols
    → d.op_info ≡ fetch_op op
    → All (λ c. c < length h.nodes) children
    → IsHeld m h
    → Sound Unprovided h (IsCopied d) (
        (rename_fetch f.column_name d >>= λ e.
        alloc (plan_node e children) >>= λ a. copy_fetch fs e children (put column_lt f (some a) m))
          h)
copy_match f fs op children others d m h valid shape ins outs fetch older held =
    step (rename_fetch-Sound f.column_name d h valid ins outs) (λ e k v g r.
      let copy = refetched-IsNode d e children op h k shape outs older g fetch r in
      step (alloc-Sound (plan_node e children) k v copy) (λ a l w i new.
        let both = Grown-trans h k l g i in
        weaken
          (others e (put column_lt f (some a) m) l w copy.shape (r.op ∙ fetch)
            (All-below (length h.nodes) (length l.nodes) children both.0 older)
            (put-IsHeld f a m l new (IsHeld-Grown m h l both held)))
          (λ c x p. (IsRenamed-trans d e c.0 r p.0, p.1))))

pub copy_fetch-Sound :
    (fs : List TableColumn) (op : FetchOp) (children : List ℕ) → Copies fs op children
unfolding copy_fetch
copy_fetch-Sound [] op children d m h valid shape fetch older held =
    sound valid (Grown-refl h) (record { op = refl; inputs = refl; outputs = refl }, held)
copy_fetch-Sound (f ∷ fs) op children d m h valid shape fetch older held =
    let one : (length d.input_columns ≡ 1) × (length d.output_cols ≡ 1) =
      subst (λ i. OpShape i d.input_columns d.output_cols) fetch shape in
    let (i, e) = get_elem-returns d.input_columns 0 (omega (arith, one.0)) in
    let others = copy_fetch-Sound fs op children in
    let matched =
      copy_match f fs op children others d m h valid shape (omega (arith, one.0))
        (omega (arith, one.1)) fetch older held in
    rw (copy_fetch, at_eq no_input d.input_columns 0 h i e)
      (by_name (text_eq f.table.name i.table.name) matched
        (others d m h valid shape fetch older held))
  where
    by_name :
        (t : Bool)
        → Sound Unprovided h (IsCopied d) (
            (rename_fetch f.column_name d >>= λ e. alloc (plan_node e children) >>= λ a.
            copy_fetch fs e children (put column_lt f (some a) m))
              h)
        → Sound Unprovided h (IsCopied d) (copy_fetch fs d children m h)
        → Sound Unprovided h (IsCopied d) (
            (elim t as (λ _. Cmd (IrData × Map TableColumn)) [
              | true ↦ rename_fetch f.column_name d >>= λ e. alloc (plan_node e children) >>= λ a.
                  copy_fetch fs e children (put column_lt f (some a) m)
              | false ↦ copy_fetch fs d children m
            ])
              h)
    by_name true matched other = matched
    by_name false matched other = other

abbrev pub IsFilledNode : ℕ × MaterializationData → Heap → Type 0
IsFilledNode r k = (r.0 < length k.nodes) × HoldsNodes r.1 k

pub ended-Sound :
    (n : PlanNode) (last : MaterializationData) (k : Heap)
    → IsHeap k
    → IsNode k.missing (length k.nodes) n
    → HoldsNodes last k
    → Sound Unprovided k IsFilledNode ((alloc n >>= λ a. pure (a, last)) k)
ended-Sound n last k v new known =
    step {f = λ a. pure (a, last)} (alloc-Sound n k v new) (λ a l w i al.
      sound w (Grown-refl l) (al, IsHeld-Grown last.previous_materializations k l i known))

module _ (input_of_parent : List TableColumn) (d : IrData) (children : List ℕ)
    (cur : MaterializationData) (h : Heap) (valid : IsHeap h) (shape : IsShaped d)
    (outputs : 1 ≤ length d.output_cols) (older : All (λ c. c < length h.nodes) children)
    (known : HoldsNodes cur h) where
  fill_other :
      FetchView.view_if d ≡ none
      → Sound Unprovided h IsFilledNode (finish_fill input_of_parent d children cur h)
  unfolding finish_fill
  fill_other e =
      rw (finish_fill, e)
        (step (provide_values-Sound d.input_columns cur.previous_materializations h valid known)
          (λ r k v g p.
            ended-Sound (plan_node d r) cur k v
              (record {
                shape = shape;
                outputs = outputs;
                older = p.0;
                wired = wired_if k.missing (plan_node d r) (λ z. not_fetch d r e (p.1 z));
              })
              (IsHeld-Grown cur.previous_materializations h k g known)))

  fill_fetch :
      (op : FetchOp)
      → FetchView.view_if d ≡ some op
      → Sound Unprovided h IsFilledNode (finish_fill input_of_parent d children cur h)
  unfolding finish_fill
  fill_fetch op e = elim (Bool-cases op.was_table_base_node) [
    | inr f ↦
        let same : IsRenamed d d = record { op = refl; inputs = refl; outputs = refl } in
        rw (finish_fill, e)
          (rw f (
            ended-Sound (plan_node d children) cur h valid
              (refetched-IsNode d d children op h h shape outputs older (Grown-refl h)
                (fetch-op d op e) same)
              known))
    | inl f ↦
        let mine : (length d.input_columns ≡ 1) × (length d.output_cols ≡ 1) =
          subst (λ i. OpShape i d.input_columns d.output_cols) (fetch-op d op e) shape in
        rw (finish_fill, e)
          (rw f (
            step
              (copy_fetch-Sound input_of_parent op children d cur.previous_materializations h valid
                shape (fetch-op d op e) older known)
              (λ b k v g r.
                let (i, t) =
                  get_elem-returns b.0.input_columns 0 (omega (arith, r.0.inputs, mine.0)) in
                rw (at_eq no_input b.0.input_columns 0 k i t) (
                  ended-Sound (plan_node b.0 children)
                    (record {
                      tables_below = insert table_lt i.table cur.tables_below;
                      previous_materializations = b.1;
                    })
                    k v
                    (refetched-IsNode d b.0 children op h k shape outputs older g (fetch-op d op e)
                      r.0)
                    r.1))))
  ]

  pub finish_fill-Sound :
      Sound Unprovided h IsFilledNode (finish_fill input_of_parent d children cur h)
  finish_fill-Sound = elim (Option-cases (FetchView.view_if d)) [
    | inl e ↦ fill_other e
    | inr (op, e) ↦ fill_fetch op e
  ]
