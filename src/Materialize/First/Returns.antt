-- ===== src/Materialize/First/Returns.antt =====
-- About the end of a visit in the first version of the late materialization, and the whole pass.
use db_query_optimizer.Materialize.Fetches.{not_fetch}
use db_query_optimizer.Base.Sets.{insert_all}
use db_query_optimizer.Materialize.Late.Sound.{IsRoot}
use db_query_optimizer.Materialize.Late.Provides.{made-Sound, finish_late-Sound, IsVisited}
use db_query_optimizer.Ir.Shape.{IsShaped}
use db_query_optimizer.Materialize.Late.Steps.{IsKnown-Grown}
use db_query_optimizer.Base.{column_lt, TableColumn}
use db_query_optimizer.Materialize.Whole.{AreWhole, IsWhole}
use db_query_optimizer.Heap.Valid.{
  wired_if, Grown-refl, sound, step, ListFault, Sound, IsHeap, Grown,
}
use db_query_optimizer.Common.{
  arith, inl, inr, Option-cases, ◌≤◌, length, ◌<◌, All, ℕ, [], List, some,
}
use db_query_optimizer.Ir.{IrData, Plan, Plans, null, node, nil, cons}
use db_query_optimizer.Ir.FetchView
use db_query_optimizer.Heap.{plan_node, pure, Heap}
use db_query_optimizer.Materialize.Late.{no_data}
use db_query_optimizer.Materialize.First.{
  Gathered, first_registry, finish_first, first_plan, first_plans, put_late_materialization,
}
use db_query_optimizer.Materialize.First.Sound.{
  IsGathered, gather_child-Sound, first_registry-IsKnown, provide_first-Sound,
}

module _ (input_of_parent : List TableColumn) (d : IrData) (children : List ℕ) (g : Gathered)
    (h : Heap) (valid : IsHeap h) (shape : IsShaped d) (outputs : 1 ≤ length d.output_cols)
    (older : All (λ c. c < length h.nodes) children) (known : IsGathered g h) where
  finish_first-Sound : Sound ListFault h IsVisited (finish_first input_of_parent d children g h)
  unfolding finish_first
  finish_first-Sound = elim (Option-cases (FetchView.view_if d)) [
    | inr (op, e) ↦
        rw (finish_first, e)
          (finish_late-Sound input_of_parent d children (first_registry g) h valid shape outputs
            older (first_registry-IsKnown g h known))
    | inl e ↦
        rw (finish_first, e)
          (step
            (provide_first-Sound d.input_columns g.cur.previous_material_values (first_registry g) h
              valid known.0.1 (first_registry-IsKnown g h known))
            (λ r k v grown p.
              made-Sound (plan_node d r.0) r.1 k v
                (record {
                  shape = shape;
                  outputs = outputs;
                  older = p.0;
                  wired = wired_if k.missing (plan_node d r.0) (λ z. not_fetch d r.0 e (p.1 z));
                })
                p.2))
  ]

abbrev AreGathered : List ℕ × Gathered → Heap → Type 0
AreGathered r k = All (λ c. c < length k.nodes) r.0 × IsGathered r.1 k

IsGathered-Grown : (g : Gathered) (h k : Heap) → Grown h k → IsGathered g h → IsGathered g k
IsGathered-Grown g h k grown (c, p) =
    (IsKnown-Grown g.cur h k grown c, IsKnown-Grown g.prev h k grown p)

mutual
  unfolding first_plan

  first_plan-Sound :
      (p : Plan) (needed input_of_parent : List TableColumn) (h : Heap)
      → IsWhole p
      → IsHeap h
      → Sound ListFault h IsVisited (first_plan p needed input_of_parent h)
  first_plan-Sound null needed input_of_parent h whole valid = absurd whole
  first_plan-Sound (node d cs) needed input_of_parent h ((shape, out), whole) valid =
      step
        (first_plans-Sound cs (insert_all column_lt d.ir_data.input_columns needed)
          (insert_all column_lt d.ir_data.input_columns [])
          (record { cur = no_data; prev = no_data }) h whole valid ((tt, tt), (tt, tt)))
        (λ r k v g known.
          finish_first-Sound input_of_parent d.ir_data r.0 r.1 k v shape out known.0 known.1)

  first_plans-Sound :
      (cs : Plans) (needed inputs : List TableColumn) (g : Gathered) (h : Heap)
      → AreWhole cs
      → IsHeap h
      → IsGathered g h
      → Sound ListFault h AreGathered (first_plans cs needed inputs g h)
  first_plans-Sound nil needed inputs g h whole valid known = sound valid (Grown-refl h) (tt, known)
  first_plans-Sound (cons p ps) needed inputs g h (whole, wholes) valid known =
      step (first_plan-Sound p needed inputs h whole valid) (λ r k v grown visited.
        step
          (gather_child-Sound needed r.0 r.1 g k v visited.0 visited.1
            (IsGathered-Grown g h k grown known))
          (λ next l w i known2.
            step (first_plans-Sound ps needed inputs next l wholes w known2) (λ rest m x j all.
              sound x (Grown-refl m) ((omega (arith, visited.0, i.0, j.0), all.0), all.1))))

-- A plan without null children, each node with its operator's shape and an output, goes through
-- the first version of the late materialization as through the later ones: it ends with a root on a heap on
-- which every node has its operator's shape and older children, one for each input of a node that
-- is no fetch, unless a column was reported missing. The only faults are a join without a second child
-- after such a report, and a position list whose node has no column of the list's table.
pub put_late_materialization_first-Sound :
    (p : Plan) (h : Heap)
    → IsWhole p
    → IsHeap h
    → Sound ListFault h IsRoot (put_late_materialization p h)
unfolding put_late_materialization
put_late_materialization_first-Sound null h whole valid = absurd whole
put_late_materialization_first-Sound (node d cs) h whole valid =
    step {f = λ r. pure (some r.0)} (first_plan-Sound (node d cs) [] [] h whole valid)
      (λ r k v g visited. sound v (Grown-refl k) visited.0)
