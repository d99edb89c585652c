-- ===== src/Materialize/GrandChildren/Kept.antt =====
-- About replacing nodes: the heap stays valid, and every node makes what it made.
use db_query_optimizer.Heap.Replaced.{replace-length}
use db_query_optimizer.Ir.Shape.{OpShape}
use db_query_optimizer.Base.{TableColumn}
use db_query_optimizer.Ir.{mat_op, OpInfo}
use db_query_optimizer.Common.{
  true, ◌∙◌, ap, length-map, sym, inr, subst, inl, arith, ◌==◌, map, ◌≡◌, Bool-cases, length, Bool,
  ℕ, [], ◌∷◌, List, refl,
}
use db_query_optimizer.Heap.{replace_node, Heap, PlanNode}
use db_query_optimizer.Heap.Valid.{OpIsWired, IsNode, AreNodes, IsHeap}
use db_query_optimizer.Materialize.GrandChildren.{is_mat}

pub replace-AreNodes :
    (missing : List TableColumn) (ns : List PlanNode) (a : ℕ) (n : PlanNode)
    → AreNodes missing ns
    → IsNode missing a n
    → AreNodes missing (replace_node ns a n)
unfolding replace_node
replace-AreNodes missing [] a n h k = tt
replace-AreNodes missing (m ∷ ms) a n (h, hs) k = elim (Bool-cases (a == length ms)) [
  | inl e ↦ rw (replace_node, e) (subst (λ b. IsNode missing b n) (ground arith) k, hs)
  | inr e ↦
      rw (replace_node, e)
        (
          subst (λ b. IsNode missing b m) (sym (replace-length ms a n)) h,
          replace-AreNodes missing ms a n hs k,
        )
]

-- What every node makes: its operator, its outputs, and their kind.
abbrev pub MadeBy : Type 0
MadeBy = OpInfo × List TableColumn × Bool × Bool

abbrev pub made_by : PlanNode → MadeBy
made_by n = (
  n.ir_data.op_info, n.ir_data.output_cols, n.ir_data.outputs_pos_list, n.ir_data.outputs_mat_vals,
)

-- What the pass needs of a heap: it is valid, and nothing is missing.
abbrev pub IsComplete : Heap → Type 0
IsComplete h = IsHeap h × (h.missing ≡ [])

-- What the pass keeps: the heap stays so, and every node makes what it made.
pub record Kept (h k : Heap) : Type 0 where
  pub complete : IsComplete k
  pub same : map made_by k.nodes ≡ map made_by h.nodes

pub Kept-refl : (h : Heap) → IsComplete h → Kept h h
Kept-refl h c = record { complete = c; same = refl }

pub Kept-trans : (h k l : Heap) → Kept h k → Kept k l → Kept h l
Kept-trans h k l a b = record { complete = b.complete; same = b.same ∙ a.same }

pub Kept-size : (h k : Heap) → Kept h k → length k.nodes ≡ length h.nodes
Kept-size h k a = omega (
  arith,
  length-map {B = MadeBy} k.nodes made_by,
  length-map {B = MadeBy} h.nodes made_by,
  ap length a.same,
)

-- A list of two.
pub two_elements :
    {A : Type 0} (xs : List A) → length xs ≡ 2 → (x : A) × (y : A) × (xs ≡ x ∷ y ∷ [])
two_elements [] e = absurd (omega (arith, e))
two_elements (x ∷ []) e = absurd (omega (arith, e))
two_elements (x ∷ y ∷ []) e = (x, y, refl)
two_elements (x ∷ y ∷ z ∷ r) e = absurd (omega (arith, e))

pub is_mat_op : (i : OpInfo) → is_mat i ≡ true → i ≡ mat_op
unfolding is_mat
is_mat_op i e = ground arith

-- A materialization on a complete heap has two inputs and two children.
pub mat_node :
    (missing : List TableColumn) (bound : ℕ) (n : PlanNode)
    → IsNode missing bound n
    → missing ≡ []
    → is_mat n.ir_data.op_info ≡ true
    → (length n.ir_data.input_columns ≡ 2) × (length n.children ≡ 2)
mat_node (m ∷ ms) bound n v e t = cc
mat_node [] bound n v e t =
    let op = is_mat_op n.ir_data.op_info t in
    let shape : (length n.ir_data.input_columns ≡ 2) × (length n.ir_data.output_cols ≡ 1) =
      subst (λ i. OpShape i n.ir_data.input_columns n.ir_data.output_cols) op v.shape in
    let wired : length n.children ≡ length n.ir_data.input_columns =
      subst (λ i. OpIsWired i n.ir_data.input_columns n.children) op v.wired in
    (shape.0, wired ∙ shape.0)
