-- ===== src/Heap/Replaced.antt =====
-- About the nodes of a heap on which one was replaced.
use db_query_optimizer.Common.{
  sym, ◌∙◌, ap, inr, inl, ◌==◌, Bool-cases, map, arith, ◌≡◌, length, ◌<◌, ℕ, [], ◌∷◌, List, refl,
  some,
}
use db_query_optimizer.Heap.{PlanNode, node_at, replace_node}

pub replace-length :
    (ns : List PlanNode) (a : ℕ) (n : PlanNode) → length (replace_node ns a n) ≡ length ns
unfolding replace_node
replace-length [] a n = refl
replace-length (m ∷ ms) a n = ground (arith, replace-length ms a n)

-- What the new node has in common with the old one, all nodes have as before.
pub replace-map :
    {B : Type 0} (f : PlanNode → B) (ns : List PlanNode) (a : ℕ) (m n : PlanNode)
    → node_at ns a ≡ some m
    → f n ≡ f m
    → map f (replace_node ns a n) ≡ map f ns
unfolding replace_node node_at
replace-map f [] a m n e same = refl
replace-map f (k ∷ ks) a m n e same = elim (Bool-cases (a == length ks)) [
  | inl t ↦
      let here : k ≡ m = ground arith in
      rw (replace_node, t) (ap (λ x. x ∷ map f ks) (same ∙ ap f (sym here)))
  | inr t ↦ rw (replace_node, t) (ap (λ x. f k ∷ x) (replace-map f ks a m n (ground arith) same))
]

pub node_at-returns :
    (ns : List PlanNode) (a : ℕ) → a < length ns → (n : PlanNode) × (node_at ns a ≡ some n)
unfolding node_at
node_at-returns [] a lt = absurd (omega arith)
node_at-returns (n ∷ ns) a lt = elim (Bool-cases (a == length ns)) [
  | inl e ↦ (n, rw (node_at, e) refl)
  | inr e ↦ let (m, f) = node_at-returns ns a (ground arith) in (m, rw (node_at, e) f)
]
