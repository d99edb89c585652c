-- ===== src/Pipeline/Prepared.antt =====
-- About the last stage that changes the plan: materializations, grandchildren and names.
use db_query_optimizer.Names.Renamer.{holds_fetch}
use db_query_optimizer.Ir.Shape.{OpShape}
use db_query_optimizer.Materialize.GrandChildren.Kept.{Kept}
use db_query_optimizer.Names.Renamer.Ends.{
  column_frame, ColumnFrame, Frame, frames, unique_col_names-returns, frame, AreRenamable,
}
use db_query_optimizer.Pipeline.Materialized.{materialize_plan-ends, StageEnds, StageFault}
use db_query_optimizer.Heap.Valid.{IsNode, AreNodes, IsHeap}
use db_query_optimizer.Base.{TableColumn}
use db_query_optimizer.Materialize.Whole.{IsWhole}
use db_query_optimizer.Common.{
  length-map, sym, inr, arith, ◌<◌, inl, All, ◌⊎◌, subst, length, ◌≤◌, true, map, ◌≡◌, ℕ, Option,
  [], ◌∷◌, List, refl, none, some,
}
use db_query_optimizer.Ir.{FetchOp, Plan, OpInfo, fetch_op}
use db_query_optimizer.Heap.{pure, ◌>>◌, chain, Heap, Run, ok, fault, PlanNode}
use db_query_optimizer.Pipeline.{ClientConfiguration, MaterializeOptTypes}
use db_query_optimizer.Pipeline.MaterializePlan.{
  place_materializations, materialize_plan, prepare_plan, rename_columns,
}

fetch_has_input :
    (missing : List TableColumn) (bound : ℕ) (n : PlanNode)
    → IsNode missing bound n
    → holds_fetch n.ir_data.op_info ≡ true
    → 1 ≤ length n.ir_data.input_columns
fetch_has_input missing bound n v t =
    let (op, e) = as_fetch n.ir_data.op_info t in
    let one : (length n.ir_data.input_columns ≡ 1) × (length n.ir_data.output_cols ≡ 1) =
      subst (λ i. OpShape i n.ir_data.input_columns n.ir_data.output_cols) e v.shape in
    omega (arith, one.0)
  where
    as_fetch : (i : OpInfo) → holds_fetch i ≡ true → (op : FetchOp) × (i ≡ fetch_op op)
    as_fetch i t = unfold holds_fetch in ground arith

AreNodes-AreRenamable :
    (missing : List TableColumn) (ns : List PlanNode)
    → AreNodes missing ns
    → AreRenamable (map frame ns)
AreNodes-AreRenamable missing [] h = tt
AreNodes-AreRenamable missing (n ∷ ns) (h, hs) = (
  record {
    older =
        subst (λ b. All (λ c. c < b) n.children) (sym (length-map {B = Frame} ns frame)) h.older;
    fed = λ t. omega (
      arith,
      length-map {B = ColumnFrame} n.ir_data.input_columns column_frame,
      fetch_has_input missing (length ns) n h t,
    );
  },
  AreNodes-AreRenamable missing ns hs,
)

-- How the stage ends, from how the materializing pass ends: with the pass's fault; or, unless a column was reported
-- missing, with the root on a heap that differs only in the columns' names from one that the
-- optimization keeps.
abbrev pub PlanEnds : MaterializeOptTypes → Run (Option ℕ) → Run (Option ℕ) → Type 0
PlanEnds t (fault f k) stage = StageFault t f k.missing × (stage ≡ fault f k)
PlanEnds t (ok none k) stage = ⊥
PlanEnds t (ok (some a) k) stage =
    (1 ≤ length k.missing)
    ⊎ ((m : Heap) × (l : Heap) × (stage ≡ ok (some a) l) × Kept k m × (frames l ≡ frames m))

renamed_ends :
    (t : MaterializeOptTypes) (pass stage : Run (Option ℕ))
    → StageEnds t pass stage
    → PlanEnds t pass (chain stage (λ root. rename_columns root >> pure root))
unfolding rename_columns
renamed_ends t (fault f k) stage (u, e) = (u, rw e refl)
renamed_ends t (ok none k) stage e = e
renamed_ends t (ok (some a) k) stage (inl m) = inl m
renamed_ends t (ok (some a) k) stage (inr (m, e, kept, lt)) =
    let (l, r, same) =
      unique_col_names-returns a m (AreNodes-AreRenamable m.missing m.nodes kept.complete.0) lt in
    inr (m, l, rw e (rw r refl), kept, same)

-- Under each setting of the switches, for a plan without null children, each node with its
-- operator's shape and an output: where the chosen materializing pass ends and has reported no missing column,
-- the grandchildren optimization and the renaming end too, with the pass's root. The renaming
-- keeps every node's operator, output kind and children, and the place, table, type and alias of
-- each of its columns, on a heap where every node has its operator's shape, older children, one
-- for each input of a node that is no fetch, and makes what it made after the pass. Where the pass
-- faults, which it does only at a join after a reported column or, in the late passes, at a position
-- list without a column of its table, the stage has that fault.
pub prepare_plan-ends :
    (config : ClientConfiguration) (p : Plan) (h : Heap)
    → IsWhole p
    → IsHeap h
    → PlanEnds config.mat_type
        (place_materializations config.mat_type p h)
        (prepare_plan config p h)
unfolding prepare_plan
prepare_plan-ends config p h whole valid =
    renamed_ends config.mat_type (place_materializations config.mat_type p h)
      (materialize_plan config p h) (materialize_plan-ends config p h whole valid)
