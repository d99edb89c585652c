-- ===== src/Pipeline/Materialized.antt =====
-- About the stage of the pipeline that places materializations.
use db_query_optimizer.Materialize.GrandChildren.Returns.{grand_children_optimization-returns}
use db_query_optimizer.Materialize.Fill.Sound.{fill_materializes-Sound}
use db_query_optimizer.Materialize.Late.Sound.{put_late_materialization-Sound, IsRoot}
use db_query_optimizer.Heap.Valid.{sound, unsound, Sound, ListFault, Unprovided, IsHeap}
use db_query_optimizer.Materialize.GrandChildren.Kept.{Kept-size, Kept-refl, Kept, IsComplete}
use db_query_optimizer.Base.{TableColumn}
use db_query_optimizer.Materialize.Whole.{IsWhole}
use db_query_optimizer.Common.{
  arith, inl, Bool-cases, inr, ◌⊎◌, ◌<◌, length, ◌≤◌, ◌≡◌, Option, ℕ, [], ◌∷◌, List, refl, none,
  some,
}
use db_query_optimizer.Ir.{Plan}
use db_query_optimizer.Heap.{pure, ◌>>◌, chain, Fault, Heap, Run, ok, fault}
use db_query_optimizer.Pipeline.{
  ClientConfiguration, MaterializeOptTypes, fill_materializes_type, put_late_materialization_type,
  put_late_materializations_hybrid_type,
}
use db_query_optimizer.Pipeline.MaterializePlan.{
  place_materializations, with_grand_children, materialize_plan,
}

-- The faults of the pass that the switch chooses.
abbrev pub StageFault : MaterializeOptTypes → Fault → List TableColumn → Type 0
StageFault fill_materializes_type = Unprovided
StageFault put_late_materialization_type = ListFault
StageFault put_late_materializations_hybrid_type = ListFault

place_materializations-Sound :
    (t : MaterializeOptTypes) (p : Plan) (h : Heap)
    → IsWhole p
    → IsHeap h
    → Sound (StageFault t) h IsRoot (place_materializations t p h)
unfolding place_materializations
place_materializations-Sound fill_materializes_type p h whole valid =
    fill_materializes-Sound p h whole valid
place_materializations-Sound put_late_materialization_type p h whole valid =
    (put_late_materialization-Sound p h whole valid).0
place_materializations-Sound put_late_materializations_hybrid_type p h whole valid =
    (put_late_materialization-Sound p h whole valid).1

-- How the stage ends, from how the pass ends: with the pass's fault, or with a root on a complete heap unless a
-- column was reported missing.
abbrev pub StageEnds : MaterializeOptTypes → Run (Option ℕ) → Run (Option ℕ) → Type 0
StageEnds t (fault f k) stage = StageFault t f k.missing × (stage ≡ fault f k)
StageEnds t (ok none k) stage = ⊥
StageEnds t (ok (some a) k) stage =
    (1 ≤ length k.missing)
    ⊎ ((l : Heap) × (stage ≡ ok (some a) l) × Kept k l × (a < length l.nodes))

no_missing : (cs : List TableColumn) → (1 ≤ length cs) ⊎ (cs ≡ [])
no_missing [] = inr refl
no_missing (c ∷ cs) = inl (omega arith)

with_grand_children-returns :
    (config : ClientConfiguration) (a : ℕ) (h : Heap)
    → IsComplete h
    → a < length h.nodes
    → (l : Heap) × (with_grand_children config (some a) h ≡ ok tt l) × Kept h l
unfolding with_grand_children
with_grand_children-returns config a h complete lt = elim (Bool-cases config.grand_child_opt) [
  | inl e ↦
      let (l, r, kept) = grand_children_optimization-returns a h complete lt in
      (l, rw (with_grand_children, e) r, kept)
  | inr e ↦ (h, rw (with_grand_children, e) refl, Kept-refl h complete)
]

stage_ends :
    (config : ClientConfiguration) (h : Heap) (r : Run (Option ℕ))
    → Sound (StageFault config.mat_type) h IsRoot r
    → StageEnds config.mat_type r (chain r (λ root. with_grand_children config root >> pure root))
stage_ends config h (fault f k) (unsound u) = (u, refl)
stage_ends config h (ok none k) (sound valid g root) = root
stage_ends config h (ok (some a) k) (sound valid g lt) = elim (no_missing k.missing) [
  | inl m ↦ inl m
  | inr e ↦
      let (l, r, kept) = with_grand_children-returns config a k (valid, e) lt in
      inr (l, rw r refl, kept, omega (arith, Kept-size k l kept))
]

-- Under each setting of the switches, for a plan without null children, each node with its
-- operator's shape and an output: where the chosen pass ends and has reported no missing column, the
-- stage ends with the pass's root, on a heap where every node has its operator's shape, older
-- children, one for each input of a node that is no fetch, and makes what it made after the
-- pass. Where the pass faults, which it does only at a join after a reported column or, in the late
-- passes, at a position list without a column of its table, the stage has that fault.
pub materialize_plan-ends :
    (config : ClientConfiguration) (p : Plan) (h : Heap)
    → IsWhole p
    → IsHeap h
    → StageEnds config.mat_type
        (place_materializations config.mat_type p h)
        (materialize_plan config p h)
unfolding materialize_plan
materialize_plan-ends config p h whole valid =
    stage_ends config h (place_materializations config.mat_type p h)
      (place_materializations-Sound config.mat_type p h whole valid)
