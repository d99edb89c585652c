-- ===== src/Materialize/Late/Sound.antt =====
-- About the late materialization of a whole plan.
use db_query_optimizer.Materialize.Shared.{enter_values-Sound}
use db_query_optimizer.Materialize.Late.Provides.{finish_late-Sound, IsVisited}
use db_query_optimizer.Materialize.Whole.{AreWhole, IsWhole}
use db_query_optimizer.Base.Maps.Held.{merge-Points, value_at-Points}
use db_query_optimizer.Materialize.{enter_values}
use db_query_optimizer.Base.Sets.{insert_all}
use db_query_optimizer.Base.Maps.{merge, value_at}
use db_query_optimizer.Materialize.Late.Steps.{
  put_values, update_values-Sound, IsKnown-Grown, update_list-Sound, IsKnown,
}
use db_query_optimizer.Heap.Valid.{
  step, Grown-refl, load_eq, node_at-IsNode, sound, ListFault, Sound, IsHeap,
}
use db_query_optimizer.Base.{table_lt, Table, column_lt, TableColumn}
use db_query_optimizer.Common.{
  Option, ◌||◌, if◌then◌else◌, inr, Bool-cases, inl, ◌≤◌, All, arith, Option-cases, length, ◌<◌, ℕ,
  Bool, [], ◌∷◌, List, none, some,
}
use db_query_optimizer.Ir.{NodeData, Plan, Plans, null, node, nil, cons}
use db_query_optimizer.Heap.{pure, ◌>>=◌, Heap, PlanNode}
use db_query_optimizer.Materialize.Late.{
  LateMaterializationData, no_data, later_col, later_cols, take_child, late_plan, late_plans,
  put_late_materialization_v2, put_late_materialization_hybrid, is_agg_or_map, is_only_column,
}

module _ (updates : List TableColumn → TableColumn → Bool) where
  module _ (needed : List TableColumn) (child : ℕ) (below : LateMaterializationData) where
    later_col-Sound :
        (col : TableColumn) (cur : LateMaterializationData) (h : Heap)
        → IsHeap h
        → child < length h.nodes
        → IsKnown below h
        → IsKnown cur h
        → Sound ListFault h IsKnown (later_col updates needed child below col cur h)
    unfolding later_col
    later_col-Sound col cur h valid lt kb kc =
        let in_lists = update_list-Sound child below col cur h valid lt kb kc in
        elim (Option-cases (value_at column_lt col below.previous_material_values)) [
          | inl e ↦ rw (later_col, e) in_lists
          | inr (prev, e) ↦ elim (Bool-cases (updates needed col)) [
            | inr f ↦ rw (later_col, e) (rw f in_lists)
            | inl t ↦
                let at_prev =
                  value_at-Points column_lt (λ b. b < length h.nodes) col
                    below.previous_material_values prev kb.1 e in
                rw (later_col, e)
                  (rw t (
                    step (update_values-Sound col prev child h valid at_prev lt) (λ a k v g al.
                      sound v (Grown-refl k)
                        (put_values col a cur k al (IsKnown-Grown cur h k g kc)))))
          ]
        ]

    pub later_cols-Sound :
        (cols : List TableColumn) (cur : LateMaterializationData) (h : Heap)
        → IsHeap h
        → child < length h.nodes
        → IsKnown below h
        → IsKnown cur h
        → Sound ListFault h IsKnown (later_cols updates needed child below cols cur h)
    unfolding later_cols
    later_cols-Sound [] cur h valid lt kb kc = sound valid (Grown-refl h) kc
    later_cols-Sound (c ∷ cs) cur h valid lt kb kc =
        step (later_col-Sound c cur h valid lt kb kc) (λ next k v g known.
          later_cols-Sound cs next k v (omega (arith, g.0)) (IsKnown-Grown below h k g kb) known)

    -- The child's values join what is known.
    enter-IsKnown :
        (n : PlanNode) (next : LateMaterializationData) (tables : List Table) (h : Heap)
        → IsHeap h
        → child < length h.nodes
        → 1 ≤ length n.ir_data.output_cols
        → IsKnown next h
        → Sound ListFault h IsKnown (
            (enter_values child n.ir_data next.previous_material_values >>= λ values.
            pure (record next { previous_material_values = values; tables_below = tables }))
              h)
    enter-IsKnown n next tables h valid lt out known =
        step
          {f = λ values.
            pure (record next { previous_material_values = values; tables_below = tables })}
          (enter_values-Sound child n.ir_data next.previous_material_values h valid lt out known.1)
          (λ values k v g entered.
            sound v (Grown-refl k) ((IsKnown-Grown next h k g known).0, entered))

    take_child-Sound :
        (cur : LateMaterializationData) (h : Heap)
        → IsHeap h
        → child < length h.nodes
        → IsKnown below h
        → IsKnown cur h
        → Sound ListFault h IsKnown (take_child updates needed child below cur h)
    unfolding take_child
    take_child-Sound cur h valid lt kb kc =
        let (n, e, v) = node_at-IsNode h.missing h.nodes child valid lt in
        let tables = insert_all table_lt below.tables_below cur.tables_below in
        let first =
          elim (Bool-cases n.ir_data.outputs_pos_list)
            as (λ _. Sound ListFault h IsKnown (
              (if n.ir_data.outputs_pos_list
                  then later_cols updates needed child below needed cur
                  else pure (record cur {
                    previous_positionlists =
                        merge table_lt cur.previous_positionlists below.previous_positionlists;
                  }))
                h)) [
                  | inl t ↦ rw t (later_cols-Sound needed cur h valid lt kb kc)
                  | inr f ↦ rw f (
                      sound valid (Grown-refl h) (
                        merge-Points table_lt (λ b. b < length h.nodes) cur.previous_positionlists
                            below.previous_positionlists kc.0 kb.0,
                        kc.1,
                      ))
                ] in
        rw (take_child, load_eq child h n e)
          (step first (λ next k u g known.
            enter-IsKnown n next tables k u (omega (arith, g.0)) v.outputs known))

  -- The addresses of the children, and what they provide.
  abbrev AreVisited : List ℕ × LateMaterializationData → Heap → Type 0
  AreVisited r k = All (λ c. c < length k.nodes) r.0 × IsKnown r.1 k

  mutual
    unfolding late_plan

    late_plan-Sound :
        (p : Plan) (needed input_of_parent : List TableColumn) (h : Heap)
        → IsWhole p
        → IsHeap h
        → Sound ListFault h IsVisited (late_plan updates p needed input_of_parent h)
    late_plan-Sound null needed input_of_parent h whole valid = absurd whole
    late_plan-Sound (node d cs) needed input_of_parent h ((shape, out), whole) valid =
        step
          (late_plans-Sound cs (insert_all column_lt d.ir_data.input_columns needed)
            d.ir_data.input_columns no_data h whole valid (tt, tt))
          (λ r k v g known.
            finish_late-Sound input_of_parent d.ir_data r.0 r.1 k v shape out known.0 known.1)

    late_plans-Sound :
        (cs : Plans) (needed inputs : List TableColumn) (cur : LateMaterializationData) (h : Heap)
        → AreWhole cs
        → IsHeap h
        → IsKnown cur h
        → Sound ListFault h AreVisited (late_plans updates cs needed inputs cur h)
    late_plans-Sound nil needed inputs cur h whole valid known =
        sound valid (Grown-refl h) (tt, known)
    late_plans-Sound (cons p ps) needed inputs cur h (whole, wholes) valid known =
        step (late_plan-Sound p needed inputs h whole valid) (λ r k v g visited.
          step
            (take_child-Sound needed r.0 r.1 cur k v visited.0 visited.1
              (IsKnown-Grown cur h k g known))
            (λ next l w i known2.
              step (late_plans-Sound ps needed inputs next l wholes w known2) (λ rest m x j all.
                sound x (Grown-refl m) ((omega (arith, visited.0, i.0, j.0), all.0), all.1))))

-- What a pass leaves: a valid heap, and the address of the root's node on it.
abbrev pub IsRoot : Option ℕ → Heap → Type 0
IsRoot none k = ⊥
IsRoot (some a) k = a < length k.nodes

IsRoot-Sound :
    (updates : List TableColumn → TableColumn → Bool) (d : NodeData) (cs : Plans) (h : Heap)
    → IsWhole (node d cs)
    → IsHeap h
    → Sound ListFault h IsRoot ((late_plan updates (node d cs) [] [] >>= λ r. pure (some r.0)) h)
IsRoot-Sound updates d cs h whole valid =
    step {f = λ r. pure (some r.0)} (late_plan-Sound updates (node d cs) [] [] h whole valid)
      (λ r k v g visited. sound v (Grown-refl k) visited.0)

-- A plan without null children, each node with its operator's shape and an output, goes through
-- both late materializations: they end with a root on a heap on which every node has its
-- operator's shape and older children, one for each input of a node that is no fetch, unless a
-- column was reported missing. The only faults are a join without a second child after such a report, and a
-- position list whose node has no column of the list's table.
pub put_late_materialization-Sound :
    (p : Plan) (h : Heap)
    → IsWhole p
    → IsHeap h
    → Sound ListFault h IsRoot (put_late_materialization_v2 p h)
      × Sound ListFault h IsRoot (put_late_materialization_hybrid p h)
unfolding put_late_materialization_v2 put_late_materialization_hybrid
put_late_materialization-Sound null h whole valid = absurd whole
put_late_materialization-Sound (node d cs) h whole valid = (
  IsRoot-Sound (λ needed c. is_agg_or_map c) d cs h whole valid,
  IsRoot-Sound (λ needed c. is_agg_or_map c || is_only_column needed c) d cs h whole valid,
)
