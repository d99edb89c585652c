-- ===== src/Materialize/Late/Steps.antt =====
-- About the steps of the late materialization: what they give are addresses of valid nodes.
use db_query_optimizer.Base.Maps.Held.{value_at-Points, put-Points}
use db_query_optimizer.Materialize.Shared.{
  fetch-IsNode, mat-IsNode, PointsBelow, list_col-Sound, filter_col-Sound, IsAddress,
  PointsBelow-mono,
}
use db_query_optimizer.Heap.Valid.{
  Grown-refl, sound, of_unprovided, alloc-Sound, step, ListFault, Sound, IsHeap, Grown,
}
use db_query_optimizer.Ir.MaterializeView
use db_query_optimizer.Ir.FetchView
use db_query_optimizer.Common.{
  [], ◌∷◌, true, false, ℕ, Option-cases, arith, inl, inr, some, Bool-cases, length, ◌<◌,
}
use db_query_optimizer.Heap.{plan_node, Heap}
use db_query_optimizer.Base.{column_lt, table_lt, Table, TableColumn}
use db_query_optimizer.Base.Maps.{put, value_at}
use db_query_optimizer.Base.Sets.{contains}
use db_query_optimizer.Materialize.Late.{
  update_positions, update_values, fetch_on_list, update_list, LateMaterializationData,
}

-- All that a visit gives to its parent are addresses of nodes.
abbrev pub IsKnown : LateMaterializationData → Heap → Type 0
IsKnown d k =
    PointsBelow (length k.nodes) d.previous_positionlists
    × PointsBelow (length k.nodes) d.previous_material_values

pub IsKnown-Grown :
    (d : LateMaterializationData) (h k : Heap) → Grown h k → IsKnown d h → IsKnown d k
IsKnown-Grown d h k g (p, v) = (
  PointsBelow-mono (length h.nodes) (length k.nodes) d.previous_positionlists g.0 p,
  PointsBelow-mono (length h.nodes) (length k.nodes) d.previous_material_values g.0 v,
)

-- An address as a new entry.
put_list :
    (t : Table) (a : ℕ) (d : LateMaterializationData) (h : Heap)
    → a < length h.nodes
    → IsKnown d h
    → IsKnown
        (record d { previous_positionlists = put table_lt t (some a) d.previous_positionlists })
        h
put_list t a d h lt (p, v) =
    (put-Points table_lt (λ b. b < length h.nodes) t a d.previous_positionlists lt p, v)

pub put_values :
    (c : TableColumn) (a : ℕ) (d : LateMaterializationData) (h : Heap)
    → a < length h.nodes
    → IsKnown d h
    → IsKnown
        (record d {
          previous_material_values = put column_lt c (some a) d.previous_material_values;
        })
        h
put_values c a d h lt (p, v) =
    (p, put-Points column_lt (λ b. b < length h.nodes) c a d.previous_material_values lt v)

module _ (col : TableColumn) (prev child : ℕ) (h : Heap) (valid : IsHeap h)
    (lo : prev < length h.nodes) (ro : child < length h.nodes) where
  pub update_values-Sound : Sound ListFault h IsAddress (update_values col prev child h)
  unfolding update_values
  update_values-Sound =
      step (filter_col-Sound (λ f m. of_unprovided) col child h valid ro) (λ filter k v g u.
        alloc-Sound (plan_node (MaterializeView.create col filter col false) (prev ∷ child ∷ [])) k
          v
          (mat-IsNode k col filter col false prev child (omega (arith, g.0)) (omega (arith, g.0))))

  update_positions-Sound : Sound ListFault h IsAddress (update_positions col prev child h)
  unfolding update_positions
  update_positions-Sound =
      step (filter_col-Sound (λ f m. of_unprovided) col child h valid ro) (λ filter k v g u.
        step (list_col-Sound col prev k v (omega (arith, g.0))) (λ idx l w i u.
          alloc-Sound (plan_node (MaterializeView.create idx filter col true) (prev ∷ child ∷ [])) l
            w
            (mat-IsNode l idx filter col true prev child (omega (arith, g.0, i.0))
              (omega (arith, g.0, i.0)))))

pub update_list-Sound :
    (child : ℕ) (below : LateMaterializationData) (col : TableColumn)
    (cur : LateMaterializationData) (h : Heap)
    → IsHeap h
    → child < length h.nodes
    → IsKnown below h
    → IsKnown cur h
    → Sound ListFault h IsKnown (update_list child below col cur h)
unfolding update_list
update_list-Sound child below col cur h valid lt kb kc =
    elim (Bool-cases (contains table_lt col.table below.tables_below)) [
      | inr f ↦ rw (update_list, f) (sound valid (Grown-refl h) kc)
      | inl t ↦ elim (Option-cases (value_at table_lt col.table cur.previous_positionlists)) [
        | inr (updated, e) ↦ rw (update_list, t) (rw e (sound valid (Grown-refl h) kc))
        | inl e ↦ elim (Option-cases (value_at table_lt col.table below.previous_positionlists)) [
          | inl f ↦
              rw (update_list, t)
                (rw e (rw f (sound valid (Grown-refl h) (put_list col.table child cur h lt kc))))
          | inr (prev, f) ↦
              let at_prev =
                value_at-Points table_lt (λ b. b < length h.nodes) col.table
                  below.previous_positionlists prev kb.0 f in
              rw (update_list, t)
                (rw e (
                  rw f (
                    step (update_positions-Sound col prev child h valid at_prev lt) (λ a k v g al.
                      sound v (Grown-refl k)
                        (put_list col.table a cur k al (IsKnown-Grown cur h k g kc))))))
        ]
      ]
    ]

pub fetch_on_list-Sound :
    (col : TableColumn) (latest : ℕ) (h : Heap)
    → IsHeap h
    → latest < length h.nodes
    → Sound ListFault h IsAddress (fetch_on_list col latest h)
unfolding fetch_on_list
fetch_on_list-Sound col latest h valid lt =
    step
      (alloc-Sound (plan_node (FetchView.create col false) []) h valid (fetch-IsNode h col false))
      (λ fetch k v g al. step (list_col-Sound col latest k v (omega (arith, g.0))) (λ idx l w i u.
        alloc-Sound (plan_node (MaterializeView.create col idx col false) (fetch ∷ latest ∷ [])) l w
          (mat-IsNode l col idx col false fetch latest (omega (arith, i.0, al))
            (omega (arith, g.0, i.0)))))
