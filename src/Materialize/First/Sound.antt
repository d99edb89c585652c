-- ===== src/Materialize/First/Sound.antt =====
-- About the first version of the late materialization, of a whole plan.
use db_query_optimizer.Materialize.Late.Provides.{
  touched-IsKnown, touched, child-IsProvided, IsProvided,
}
use db_query_optimizer.Base.Sets.{insert_all}
use db_query_optimizer.Materialize.Late.Sound.{later_cols-Sound}
use db_query_optimizer.Materialize.Shared.{
  PointsBelow-mono, PointsBelow, mat-IsNode, enter_values-Sound, fetch-IsNode, IsAddress,
}
use db_query_optimizer.Heap.Valid.{
  refine, report-Sound, Grown-trans, at_eq, get_elem-returns, load_eq, node_at-IsNode, alloc-Sound,
  Grown-refl, sound, step, ListFault, Sound, IsHeap,
}
use db_query_optimizer.Base.Maps.Held.{
  value_at-Points, touch-Points, put-Points, put-null-Points, merge-Points,
}
use db_query_optimizer.Materialize.Late.Steps.{IsKnown-Grown, IsKnown}
use db_query_optimizer.Common.{
  inl, inr, Option-cases, suc, arith, length, ◌<◌, Bool, ℕ, [], ◌∷◌, List, refl, none, some, true,
  false, if◌then◌else◌,
}
use db_query_optimizer.Base.{TableColumn, table_lt, column_lt}
use db_query_optimizer.Base.Maps.{Map, Points, put, value_at, touch}
use db_query_optimizer.Ir.FetchView
use db_query_optimizer.Ir.MaterializeView
use db_query_optimizer.Heap.{no_output, plan_node, Heap, ◌>>=◌, pure}
use db_query_optimizer.Materialize.Late.{LateMaterializationData, later_cols}
use db_query_optimizer.Materialize.First.{
  materialize_first, Gathered, merged, gather_child, put_all, first_registry, fetch_on_first,
  provide_first,
}

put_all-Points :
    {K : Type 0} (lt : K → K → Bool) (P : ℕ → Type 0) (n m : Map K)
    → Points P n
    → Points P m
    → Points P (put_all lt n m)
unfolding put_all
put_all-Points lt P [] m h g = g
put_all-Points lt P ((k, none) ∷ n) m h g =
    put_all-Points lt P n (put lt k none m) h (put-null-Points lt P k m g)
put_all-Points lt P ((k, some a) ∷ n) m (h, hs) g =
    put_all-Points lt P n (put lt k (some a) m) hs (put-Points lt P k a m h g)

abbrev pub IsGathered : Gathered → Heap → Type 0
IsGathered g k = IsKnown g.cur k × IsKnown g.prev k

merged-IsKnown :
    (prev below : LateMaterializationData) (h : Heap)
    → IsKnown prev h
    → IsKnown below h
    → IsKnown (merged prev below) h
unfolding merged
merged-IsKnown prev below h (p, v) (q, w) = (
  merge-Points table_lt (λ b. b < length h.nodes) prev.previous_positionlists
      below.previous_positionlists p q,
  merge-Points column_lt (λ b. b < length h.nodes) prev.previous_material_values
      below.previous_material_values v w,
)

pub first_registry-IsKnown :
    (g : Gathered) (h : Heap) → IsGathered g h → IsKnown (first_registry g) h
unfolding first_registry
first_registry-IsKnown g h ((p, v), (q, w)) = (
  put_all-Points table_lt (λ b. b < length h.nodes) g.cur.previous_positionlists
      g.prev.previous_positionlists p q,
  put_all-Points column_lt (λ b. b < length h.nodes) g.cur.previous_material_values
      g.prev.previous_material_values v w,
)

pub gather_child-Sound :
    (needed : List TableColumn) (child : ℕ) (below : LateMaterializationData) (g : Gathered)
    (h : Heap)
    → IsHeap h
    → child < length h.nodes
    → IsKnown below h
    → IsGathered g h
    → Sound ListFault h IsGathered (gather_child needed child below g h)
unfolding gather_child
gather_child-Sound needed child below g h valid lt kb (kc, kp) =
    let (n, e, v) = node_at-IsNode h.missing h.nodes child valid lt in
    let all = merged-IsKnown g.prev below h kp kb in
    let tables = insert_all table_lt below.tables_below g.cur.tables_below in
    rw (gather_child, load_eq child h n e)
      (step (updated n.ir_data.outputs_pos_list all) (λ next k w grown known.
        step
          {f = λ values. pure (record {
            cur = record {
              tables_below = tables;
              previous_positionlists = next.previous_positionlists;
              previous_material_values = values;
            };
            prev = merged g.prev below;
          })}
          (enter_values-Sound child n.ir_data next.previous_material_values k w
            (omega (arith, grown.0)) v.outputs known.1)
          (λ values l x i entered. sound x (Grown-refl l) (
            ((IsKnown-Grown next k l i known).0, entered),
            IsKnown-Grown (merged g.prev below) h l (Grown-trans h k l grown i) all,
          ))))
  where
    updated :
        (b : Bool)
        → IsKnown (merged g.prev below) h
        → Sound ListFault h IsKnown (
            (if b
                then later_cols (λ all c. false) needed child (merged g.prev below) needed g.cur
                else pure g.cur)
              h)
    updated true all =
        later_cols-Sound (λ all c. false) needed child (merged g.prev below) needed g.cur h valid lt
          all kc
    updated false all = sound valid (Grown-refl h) kc

materialize_first-Sound :
    (col : TableColumn) (latest fetch : ℕ) (h : Heap)
    → IsHeap h
    → latest < length h.nodes
    → fetch < length h.nodes
    → Sound ListFault h IsAddress (materialize_first col latest fetch h)
unfolding materialize_first
materialize_first-Sound col latest fetch h valid lt new =
    let (n, e, w) = node_at-IsNode h.missing h.nodes latest valid lt in
    let (o, f) = get_elem-returns n.ir_data.output_cols 0 (omega (arith, w.outputs)) in
    rw (materialize_first, load_eq latest h n e)
      (rw (at_eq no_output n.ir_data.output_cols 0 h o f) (
        alloc-Sound (plan_node (MaterializeView.create col o col true) (fetch ∷ latest ∷ [])) h
          valid (mat-IsNode h col o col true fetch latest new lt)))

fetch_on_first-Sound :
    (col : TableColumn) (latest : ℕ) (h : Heap)
    → IsHeap h
    → latest < length h.nodes
    → Sound ListFault h IsAddress (fetch_on_first col latest h)
unfolding fetch_on_first
fetch_on_first-Sound col latest h valid lt =
    step {f = materialize_first col latest}
      (alloc-Sound (plan_node (FetchView.create col false) []) h valid (fetch-IsNode h col false))
      (λ fetch k v g al. materialize_first-Sound col latest fetch k v (omega (arith, g.0)) al)

abbrev list_touched : TableColumn → LateMaterializationData → LateMaterializationData
list_touched c d = record d {
  previous_positionlists = touch table_lt c.table d.previous_positionlists;
}

touch_list-IsKnown :
    (c : TableColumn) (d : LateMaterializationData) (h : Heap)
    → IsKnown d h
    → IsKnown (list_touched c d) h
touch_list-IsKnown c d h (p, v) =
    (touch-Points table_lt (λ b. b < length h.nodes) c.table d.previous_positionlists p, v)

-- A child that is there, and the children for the other columns.
pushed :
    (cs : List TableColumn) (values : Map TableColumn) (h : Heap) (a : ℕ)
    (known : LateMaterializationData)
    → a < length h.nodes
    → Sound ListFault h (IsProvided (length cs)) (provide_first cs values known h)
    → Sound ListFault h
        (IsProvided (suc (length cs)))
        ((provide_first cs values known >>= λ r. pure (a ∷ r.0, r.1)) h)
pushed cs values h a known lt others = step {f = λ r. pure (a ∷ r.0, r.1)} others (λ r k v g p.
    sound v (Grown-refl k) (child-IsProvided (length cs) a r k (omega (arith, g.0, lt)) p))

pub provide_first-Sound :
    (cs : List TableColumn) (values : Map TableColumn) (known : LateMaterializationData) (h : Heap)
    → IsHeap h
    → PointsBelow (length h.nodes) values
    → IsKnown known h
    → Sound ListFault h (IsProvided (length cs)) (provide_first cs values known h)
unfolding provide_first
provide_first-Sound [] values known h valid held ok_known =
    sound valid (Grown-refl h) (tt, (λ e. refl), ok_known)
provide_first-Sound (c ∷ cs) values known h valid held ok_known =
    elim (Option-cases (value_at column_lt c values)) [
      | inr (a, e) ↦
          let lt = value_at-Points column_lt (λ b. b < length h.nodes) c values a held e in
          rw (provide_first, e)
            (pushed cs values h a known lt
              (provide_first-Sound cs values known h valid held ok_known))
      | inl e ↦ elim (Option-cases (value_at table_lt c.table known.previous_positionlists)) [
        | inr (latest, f) ↦
            let lt =
              value_at-Points table_lt (λ b. b < length h.nodes) c.table
                known.previous_positionlists latest ok_known.0 f in
            rw (provide_first, e)
              (rw f (
                step (fetch_on_first-Sound c latest h valid lt) (λ a k v g al.
                  step
                    (provide_first-Sound cs values known k v
                      (PointsBelow-mono (length h.nodes) (length k.nodes) values g.0 held)
                      (IsKnown-Grown known h k g ok_known))
                    (λ r l w i p.
                      sound w (Grown-refl l)
                        (child-IsProvided (length cs) a r l (omega (arith, i.0, al)) p)))))
        | inl f ↦ elim (Option-cases (value_at column_lt c known.previous_material_values)) [
          | inr (a, t) ↦
              let lt =
                value_at-Points column_lt (λ b. b < length h.nodes) c known.previous_material_values
                  a ok_known.1 t in
              rw (provide_first, e)
                (rw f (
                  rw t (
                    pushed cs values h a (list_touched c known) lt (
                      provide_first-Sound cs values (list_touched c known) h valid held
                        (touch_list-IsKnown c known h ok_known)))))
          | inl t ↦
              rw (provide_first, e)
                (rw f (
                  rw t (
                    step {f = λ u. provide_first cs values (touched c known)}
                      (report-Sound c h valid)
                      (λ u k v g some_missing.
                        refine
                          (provide_first-Sound cs values (touched c known) k v
                            (PointsBelow-mono (length h.nodes) (length k.nodes) values g.0 held)
                            (touched-IsKnown c known k (IsKnown-Grown known h k g ok_known)))
                          (λ r l i p.
                            (p.0, (λ z. absurd (omega (arith, i.1, some_missing, z))), p.2))))))
        ]
      ]
    ]
