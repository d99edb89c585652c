-- ===== src/Materialize/Fill/Sound.antt =====
-- About filling in the materializations of a whole plan.
use db_query_optimizer.Materialize.Fill.Finish.{finish_fill-Sound, IsFilledNode}
use db_query_optimizer.Materialize.Fill.Values.{IsHeld-Grown, fill_child-Sound, HoldsNodes}
use db_query_optimizer.Materialize.Late.Sound.{IsRoot}
use db_query_optimizer.Materialize.Whole.{AreWhole, IsWhole}
use db_query_optimizer.Base.Sets.{insert_all}
use db_query_optimizer.Base.{column_lt, TableColumn}
use db_query_optimizer.Common.{All, arith, length, ◌<◌, ℕ, [], List, some}
use db_query_optimizer.Ir.{Plan, Plans, null, node, nil, cons}
use db_query_optimizer.Heap.{Heap, pure}
use db_query_optimizer.Heap.Valid.{Grown-refl, sound, step, IsHeap, Sound, Unprovided}
use db_query_optimizer.Materialize.Fill.{
  fill_plans, nothing, fill_plan, fill_materializes, MaterializationData,
}

abbrev AreFilled : List ℕ × MaterializationData → Heap → Type 0
AreFilled r k = All (λ c. c < length k.nodes) r.0 × HoldsNodes r.1 k

mutual
  unfolding fill_plan

  fill_plan-Sound :
      (p : Plan) (needed input_of_parent : List TableColumn) (h : Heap)
      → IsWhole p
      → IsHeap h
      → Sound Unprovided h IsFilledNode (fill_plan p needed input_of_parent h)
  fill_plan-Sound null needed input_of_parent h whole valid = absurd whole
  fill_plan-Sound (node d cs) needed input_of_parent h ((shape, out), whole) valid =
      step
        (fill_plans-Sound cs (insert_all column_lt d.ir_data.input_columns needed)
          (insert_all column_lt d.ir_data.input_columns []) nothing h whole valid tt)
        (λ r k v g known.
          finish_fill-Sound input_of_parent d.ir_data r.0 r.1 k v shape out known.0 known.1)

  fill_plans-Sound :
      (cs : Plans) (needed inputs : List TableColumn) (cur : MaterializationData) (h : Heap)
      → AreWhole cs
      → IsHeap h
      → HoldsNodes cur h
      → Sound Unprovided h AreFilled (fill_plans cs needed inputs cur h)
  fill_plans-Sound nil needed inputs cur h whole valid known =
      sound valid (Grown-refl h) (tt, known)
  fill_plans-Sound (cons p ps) needed inputs cur h (whole, wholes) valid known =
      step (fill_plan-Sound p needed inputs h whole valid) (λ r k v g visited.
        step
          (fill_child-Sound needed r.0 r.1 cur k v visited.0 visited.1
            (IsHeld-Grown cur.previous_materializations h k g known))
          (λ next l w i known2.
            step (fill_plans-Sound ps needed inputs next l wholes w known2) (λ rest m x j all.
              sound x (Grown-refl m) ((omega (arith, visited.0, i.0, j.0), all.0), all.1))))

-- A plan without null children, each node with its operator's shape and an output, goes through
-- `fillMaterializes`: it ends with a root on a heap on which every node has its operator's shape
-- and older children, one for each input of a node that is no fetch, unless a column was reported
-- missing. The only fault is a join without a second child after such a report.
pub fill_materializes-Sound :
    (p : Plan) (h : Heap) → IsWhole p → IsHeap h → Sound Unprovided h IsRoot (fill_materializes p h)
unfolding fill_materializes
fill_materializes-Sound null h whole valid = absurd whole
fill_materializes-Sound (node d cs) h whole valid =
    step {f = λ r. pure (some r.0)} (fill_plan-Sound (node d cs) [] [] h whole valid)
      (λ r k v g visited. sound v (Grown-refl k) visited.0)
