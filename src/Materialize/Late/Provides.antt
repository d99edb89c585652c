-- ===== src/Materialize/Late/Provides.antt =====
-- About the end of a node's visit: its new children, and the node that is made.
use db_query_optimizer.Materialize.Fetches.{fetch-op, not_fetch, refetched-IsNode}
use db_query_optimizer.Base.Sets.{insert}
use db_query_optimizer.Materialize.Shared.{name_fetch-Sound, IsRenamed}
use db_query_optimizer.Ir.Shape.{OpShape, IsShaped}
use db_query_optimizer.Heap.Valid.{
  refine, at_eq, get_elem-returns, IsNode, wired_if, alloc-Sound, report-Sound, step, Grown-refl,
  sound, ListFault, Sound, IsHeap,
}
use db_query_optimizer.Common.{
  refl, [], ◌∷◌, List, suc, subst, Bool-cases, ◌≤◌, inl, inr, Option-cases, ap, ◌∷◌, arith, suc,
  length, none, some, ◌≡◌, ◌<◌,
}
use db_query_optimizer.Common.{All}
use db_query_optimizer.Base.Maps.Held.{value_at-Points, touch-Points}
use db_query_optimizer.Ir.{FetchOp, IrData}
use db_query_optimizer.Heap.{PlanNode, ◌>>=◌, alloc, pure, no_input, plan_node, Heap}
use db_query_optimizer.Base.{TableColumn, table_lt, column_lt}
use db_query_optimizer.Base.Maps.{value_at, touch}
use db_query_optimizer.Ir.FetchView
use db_query_optimizer.Materialize.Late.{ℕ, List, LateMaterializationData, provide, finish_late}
use db_query_optimizer.Materialize.Late.Steps.{
  IsKnown, IsKnown-Grown, put_values, fetch_on_list-Sound,
}

-- The children are addresses of nodes, one for each column unless one was reported missing.
abbrev pub IsProvided : ℕ → List ℕ × LateMaterializationData → Heap → Type 0
IsProvided n r k =
    All (λ c. c < length k.nodes) r.0 × (length k.missing ≡ 0 → length r.0 ≡ n) × IsKnown r.1 k

-- One more child.
pub child-IsProvided :
    (n c : ℕ) (r : List ℕ × LateMaterializationData) (k : Heap)
    → c < length k.nodes
    → IsProvided n r k
    → IsProvided (suc n) (c ∷ r.0, r.1) k
child-IsProvided n c r k lt (a, w, known) = ((lt, a), (λ e. ap suc (w e)), known)

-- What is known after a column was looked up in vain.
abbrev pub touched : TableColumn → LateMaterializationData → LateMaterializationData
touched c d = record d {
  previous_material_values = touch column_lt c d.previous_material_values;
  previous_positionlists = touch table_lt c.table d.previous_positionlists;
}

pub touched-IsKnown :
    (c : TableColumn) (d : LateMaterializationData) (h : Heap)
    → IsKnown d h
    → IsKnown (touched c d) h
touched-IsKnown c d h (p, v) = (
  touch-Points table_lt (λ b. b < length h.nodes) c.table d.previous_positionlists p,
  touch-Points column_lt (λ b. b < length h.nodes) c d.previous_material_values v,
)

pub provide-Sound :
    (cs : List TableColumn) (cur : LateMaterializationData) (h : Heap)
    → IsHeap h
    → IsKnown cur h
    → Sound ListFault h (IsProvided (length cs)) (provide cs cur h)
unfolding provide
provide-Sound [] cur h valid known = sound valid (Grown-refl h) (tt, (λ e. refl), known)
provide-Sound (c ∷ cs) cur h valid known =
    elim (Option-cases (value_at column_lt c cur.previous_material_values)) [
      | inr (m, e) ↦
          let lt =
            value_at-Points column_lt (λ b. b < length h.nodes) c cur.previous_material_values m
              known.1 e in
          rw (provide, e)
            (step (provide-Sound cs cur h valid known) (λ r k v g p.
              sound v (Grown-refl k)
                (child-IsProvided (length cs) m r k (omega (arith, g.0, lt)) p)))
      | inl e ↦ elim (Option-cases (value_at table_lt c.table cur.previous_positionlists)) [
        | inr (latest, f) ↦
            let lt =
              value_at-Points table_lt (λ b. b < length h.nodes) c.table cur.previous_positionlists
                latest known.0 f in
            rw (provide, e)
              (rw f (
                step (fetch_on_list-Sound c latest h valid lt) (λ a k v g al.
                  step
                    (provide-Sound cs _ k v
                      (put_values c a cur k al (IsKnown-Grown cur h k g known)))
                    (λ r l w i p.
                      sound w (Grown-refl l)
                        (child-IsProvided (length cs) a r l (omega (arith, i.0, al)) p)))))
        | inl f ↦
            rw (provide, e)
              (rw f (
                step {f = λ u. provide cs (touched c cur)} (report-Sound c h valid)
                  (λ u k v g some_missing.
                    refine
                      (provide-Sound cs (touched c cur) k v
                        (touched-IsKnown c cur k (IsKnown-Grown cur h k g known)))
                      (λ r l i p.
                        (p.0, (λ zero. absurd (omega (arith, i.1, some_missing, zero))), p.2)))))
      ]
    ]

-- The result of a visit: the address of the node, and what the parent may use.
abbrev pub IsVisited : ℕ × LateMaterializationData → Heap → Type 0
IsVisited r k = (r.0 < length k.nodes) × IsKnown r.1 k

-- The node that ends a visit.
pub made-Sound :
    (n : PlanNode) (last : LateMaterializationData) (k : Heap)
    → IsHeap k
    → IsNode k.missing (length k.nodes) n
    → IsKnown last k
    → Sound ListFault k IsVisited ((alloc n >>= λ a. pure (a, last)) k)
made-Sound n last k v new known =
    step {f = λ a. pure (a, last)} (alloc-Sound n k v new)
      (λ a l w i al. sound w (Grown-refl l) (al, IsKnown-Grown last k l i known))

module _ (input_of_parent : List TableColumn) (d : IrData) (children : List ℕ)
    (cur : LateMaterializationData) (h : Heap) (valid : IsHeap h) (shape : IsShaped d)
    (outputs : 1 ≤ length d.output_cols) (older : All (λ c. c < length h.nodes) children)
    (known : IsKnown cur h) where
  finish_other :
      FetchView.view_if d ≡ none
      → Sound ListFault h IsVisited (finish_late input_of_parent d children cur h)
  unfolding finish_late
  finish_other e =
      rw (finish_late, e)
        (step (provide-Sound d.input_columns cur h valid known) (λ r k v g p.
          made-Sound (plan_node d r.0) r.1 k v
            (record {
              shape = shape;
              outputs = outputs;
              older = p.0;
              wired = wired_if k.missing (plan_node d r.0) (λ z. not_fetch d r.0 e (p.1 z));
            })
            p.2))

  finish_fetch :
      (op : FetchOp)
      → FetchView.view_if d ≡ some op
      → Sound ListFault h IsVisited (finish_late input_of_parent d children cur h)
  unfolding finish_late
  finish_fetch op e = elim (Bool-cases op.was_table_base_node) [
    | inr f ↦
        let same : IsRenamed d d = record { op = refl; inputs = refl; outputs = refl } in
        rw (finish_late, e)
          (rw f (
            made-Sound (plan_node d children) cur h valid
              (refetched-IsNode d d children op h h shape outputs older (Grown-refl h)
                (fetch-op d op e) same)
              known))
    | inl f ↦
        let mine : (length d.input_columns ≡ 1) × (length d.output_cols ≡ 1) =
          subst (λ i. OpShape i d.input_columns d.output_cols) (fetch-op d op e) shape in
        rw (finish_late, e)
          (rw f (
            step (name_fetch-Sound input_of_parent d h valid (omega (arith, mine.0)) outputs)
              (λ b k v g r.
                let (i, t) = get_elem-returns b.input_columns 0 (omega (arith, r.inputs, mine.0)) in
                rw (at_eq no_input b.input_columns 0 k i t) (
                  made-Sound (plan_node b children)
                    (record cur { tables_below = insert table_lt i.table cur.tables_below }) k v
                    (refetched-IsNode d b children op h k shape outputs older g (fetch-op d op e) r)
                    (IsKnown-Grown cur h k g known)))))
  ]

  pub finish_late-Sound : Sound ListFault h IsVisited (finish_late input_of_parent d children cur h)
  finish_late-Sound = elim (Option-cases (FetchView.view_if d)) [
    | inl e ↦ finish_other e
    | inr (op, e) ↦ finish_fetch op e
  ]
