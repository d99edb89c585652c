-- ===== src/Materialize/GrandChildren/Returns.antt =====
-- About the grandchildren optimization: it ends, and what it keeps.
use db_query_optimizer.Materialize.GrandChildren.Kept.{
  Kept-size, Kept-trans, Kept, Kept-refl, IsComplete,
}
use db_query_optimizer.Materialize.GrandChildren.Rewires.{if_Keeps, optimize_values-Keeps, Keeps}
use db_query_optimizer.Common.{
  zero, ◌&&◌, if◌then◌else◌, any, suc, ◌<◌, All, ◌≤◌, inr, inl, arith, ◌==◌, ◌≡◌, Bool-cases,
  length, ℕ, [], ◌∷◌, List, refl, some,
}
use db_query_optimizer.Heap.{◌>>◌, chain, fault, pure, Cmd, Run, ok, node_at, Heap, PlanNode}
use db_query_optimizer.Heap.Valid.{
  Ends-wider, stops, Ends-chain, returns, load_eq, node_at-IsNode, IsNode,
}
use db_query_optimizer.Materialize.GrandChildren.{
  is_mat, optimize_values, optimize_node, for_children, grand_children_optimization_sub,
  grand_children_optimization,
}

optimize_node-Keeps :
    (a : ℕ) (h : Heap) → IsComplete h → a < length h.nodes → Keeps h (optimize_node a h)
unfolding optimize_node
optimize_node-Keeps a h complete lt =
    let (n, e, v) = node_at-IsNode h.missing h.nodes a complete.0 lt in
    rw (optimize_node, load_eq a h n e) (by_kind n e v)
  where
    by_kind :
        (n : PlanNode)
        → node_at h.nodes a ≡ some n
        → IsNode h.missing a n
        → Keeps h (
            (if is_mat n.ir_data.op_info && n.ir_data.outputs_mat_vals
                then optimize_values a n
                else pure tt)
              h)
    by_kind n e v =
        if_Keeps h complete (is_mat n.ir_data.op_info && n.ir_data.outputs_mat_vals)
          (optimize_values a n) (λ f. optimize_values-Keeps a n h complete e lt v (ground arith))

-- One kept heap after another.
Keeps-then :
    {A B : Type 0} {h : Heap} {r : Run A} {f : A → Cmd B}
    → Keeps h r
    → ((a : A) (k : Heap) → Kept h k → Keeps k (f a k))
    → Keeps h (chain r f)
Keeps-then {h = h} s next =
    Ends-chain s (λ a k kept.
      Ends-wider (next a k kept) (λ b l kept2. Kept-trans h k l kept kept2) (λ f l u. u))

for_children-Keeps :
    (visit : ℕ → List ℕ → Cmd (List ℕ)) (n : ℕ)
    → ((c : ℕ) (visited : List ℕ) (h : Heap)
        → IsComplete h
        → c < n
        → n ≤ length h.nodes
        → Keeps h (visit c visited h))
    → (cs visited : List ℕ) (h : Heap) → IsComplete h
    → All (λ c. c < n) cs
    → n ≤ length h.nodes
    → Keeps h (for_children visit cs visited h)
unfolding for_children
for_children-Keeps visit n each [] visited h complete lt le = returns (Kept-refl h complete)
for_children-Keeps visit n each (c ∷ cs) visited h complete (lt, lts) le =
    Keeps-then (each c visited h complete lt le) (λ seen k kept.
      for_children-Keeps visit n each cs seen k kept.complete lts
        (omega (arith, Kept-size h k kept)))

sub-Keeps :
    (fuel a : ℕ) (visited : List ℕ) (h : Heap)
    → IsComplete h
    → a < fuel
    → a < length h.nodes
    → Keeps h (grand_children_optimization_sub fuel a visited h)
unfolding grand_children_optimization_sub
sub-Keeps zero a visited h complete lt le = absurd (omega arith)
sub-Keeps (suc fuel) a visited h complete lt le = elim (Bool-cases (any (λ v. v == a) visited)) [
  | inl e ↦ rw (grand_children_optimization_sub, e) (returns (Kept-refl h complete))
  | inr e ↦
      let (n, f, v) = node_at-IsNode h.missing h.nodes a complete.0 le in
      let each =
        for_children-Keeps (grand_children_optimization_sub fuel) a
          (λ c seen k comp co ko. sub-Keeps fuel c seen k comp (omega arith) (omega arith))
          n.children (a ∷ visited) h complete v.older (omega arith) in
      let rest = Keeps-then {f = λ seen. optimize_node a >> pure seen} each (λ seen k kept.
        Keeps-then {f = λ u. pure seen}
          (optimize_node-Keeps a k kept.complete (omega (arith, Kept-size h k kept)))
          (λ u l kept2. returns (Kept-refl l kept2.complete))) in
      rw (grand_children_optimization_sub, e) (rw (load_eq a h n f) rest)
]

-- A run that ends with a value.
no_fault :
    {A : Type 0} {h : Heap} (r : Run A) → Keeps h r → (a : A) × (k : Heap) × (r ≡ ok a k) × Kept h k
no_fault (ok a k) (returns kept) = (a, k, refl, kept)
no_fault (fault f k) (stops u) = absurd u

-- On a heap on which every node has its operator's shape, older children, one for each input of
-- a node that is no fetch, and nothing was reported missing, the grandchildren optimization ends without
-- a fault from any node, however nodes share children. The heap stays such a heap, and every node
-- keeps its operator, its output columns and their kind.
pub grand_children_optimization-returns :
    (a : ℕ) (h : Heap)
    → IsComplete h
    → a < length h.nodes
    → (k : Heap) × (grand_children_optimization (some a) h ≡ ok tt k) × Kept h k
unfolding grand_children_optimization
grand_children_optimization-returns a h complete lt =
    let (seen, k, e, kept) =
      no_fault (grand_children_optimization_sub (suc a) a [] h)
        (sub-Keeps (suc a) a [] h complete (omega arith) lt) in
    (k, rw (grand_children_optimization, e) refl, kept)
