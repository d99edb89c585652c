-- ===== src/Materialize/Fetches.antt =====
-- About fetches and the nodes that are none: how they stay wired.
use db_query_optimizer.Heap.FilterCol.Found.{All-below}
use db_query_optimizer.Materialize.Shared.{IsRenamed}
use db_query_optimizer.Ir.Shape.{OpShape, IsShaped}
use db_query_optimizer.Heap.Valid.{wired_always, IsNode, Grown, OpIsWired}
use db_query_optimizer.Common.{ℕ, List, sym, ◌∙◌, subst, ◌≤◌, arith, length, none, some, ◌≡◌, ◌<◌}
use db_query_optimizer.Common.{All}
use db_query_optimizer.Ir.{fetch_op, FetchOp, IrData}
use db_query_optimizer.Heap.{plan_node, Heap}
use db_query_optimizer.Ir.FetchView

pub not_fetch :
    (d : IrData) (cs : List ℕ)
    → FetchView.view_if d ≡ none
    → length cs ≡ length d.input_columns
    → OpIsWired d.op_info d.input_columns cs
unfolding FetchView.view_if
not_fetch d cs e w = ground arith

pub fetch-op : (d : IrData) (op : FetchOp) → FetchView.view_if d ≡ some op → d.op_info ≡ fetch_op op
unfolding FetchView.view_if
fetch-op d op e = ground arith

-- A fetch that is renamed keeps its children.
pub refetched-IsNode :
    (d e : IrData) (children : List ℕ) (op : FetchOp) (h k : Heap)
    → IsShaped d
    → 1 ≤ length d.output_cols
    → All (λ c. c < length h.nodes) children
    → Grown h k
    → d.op_info ≡ fetch_op op
    → IsRenamed d e
    → IsNode k.missing (length k.nodes) (plan_node e children)
refetched-IsNode d e children op h k shape outputs older g f r = record {
  shape = subst (λ i. OpShape i e.input_columns e.output_cols) (sym (r.op ∙ f)) one_each;
  outputs = omega (arith, r.outputs);
  older = All-below (length h.nodes) (length k.nodes) children g.0 older;
  wired =
      wired_always k.missing (plan_node e children)
        (subst (λ i. OpIsWired i e.input_columns children) (sym (r.op ∙ f)) tt);
}
  where
    mine : (length d.input_columns ≡ 1) × (length d.output_cols ≡ 1)
    mine = subst (λ i. OpShape i d.input_columns d.output_cols) f shape

    one_each : (length e.input_columns ≡ 1) × (length e.output_cols ≡ 1)
    one_each = (r.inputs ∙ mine.0, r.outputs ∙ mine.1)
