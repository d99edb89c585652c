-- ===== src/Sequence/Order.antt =====
-- What a post-order of a graph is, and the facts on membership that its proofs use.
use db_query_optimizer.Common.{
  ℕ, true, false, ◌||◌, List, [], ◌∷◌, ◌++◌, ◌≡◌, refl, arith, ◌≢◌, subst, ◌⊎◌,
}
use native.Mathlib.Decide.{ℕ_discrete}
use db_query_optimizer.Sequence.{mem}

pub mem-append : (x : ℕ) (xs ys : List ℕ) → mem x (xs ++ ys) ≡ mem x xs || mem x ys
unfolding mem
mem-append x [] ys = refl
mem-append x (z ∷ xs) ys = ground (arith, mem-append x xs ys)

pub mem_snoc_self : (x : ℕ) (xs : List ℕ) → mem x (xs ++ x ∷ []) ≡ true
unfolding mem
mem_snoc_self x xs = ground (arith, mem-append x xs (x ∷ []))

pub mem_snoc_old : (x n : ℕ) (xs : List ℕ) → mem x xs ≡ true → mem x (xs ++ n ∷ []) ≡ true
mem_snoc_old x n xs h = ground (arith, mem-append x xs (n ∷ []))

pub mem_snoc_cases : (x n : ℕ) (xs : List ℕ) → mem x (xs ++ n ∷ []) ≡ true → x ≢ n → mem x xs ≡ true
unfolding mem
mem_snoc_cases x n xs h d = ground (arith, mem-append x xs (n ∷ []))

-- Each node stands once, behind all its children.
pub data PostOrder (children : ℕ → List ℕ) : List ℕ → Type 0 where
  start : PostOrder children []
  next :
      {xs ys : List ℕ} (n : ℕ)
      → PostOrder children xs
      → ((c : ℕ) → mem c (children n) ≡ true → mem c xs ≡ true)
      → mem n xs ≡ false
      → ys ≡ xs ++ n ∷ []
      → PostOrder children ys

-- `x` is below `n`, or `n` itself.
pub data Below (children : ℕ → List ℕ) (n : ℕ) : ℕ → Type 0 where
  self : Below children n n
  child : {x c : ℕ} → Below children n x → mem c (children x) ≡ true → Below children n c

-- A list in post-order holds the children of its nodes.
pub PostOrder-closed :
    {children : ℕ → List ℕ} {xs : List ℕ}
    → PostOrder children xs
    → (x c : ℕ) → mem x xs ≡ true
    → mem c (children x) ≡ true
    → mem c xs ≡ true
PostOrder-closed {children} start x c h k = unfold mem in cc
PostOrder-closed {children} (next {xs} n p before fresh e) x c h k = rw e (
    mem_snoc_old c n xs (elim (ℕ_discrete x n) [
      | yes same ↦ before c (subst (λ t. mem c (children t) ≡ true) same k)
      | no other ↦ PostOrder-closed p x c (mem_snoc_cases x n xs (rw e at h) other) k
    ]))

pub PostOrder-Below :
    {children : ℕ → List ℕ} {xs : List ℕ} {n x : ℕ}
    → PostOrder children xs
    → mem n xs ≡ true
    → Below children n x
    → mem x xs ≡ true
PostOrder-Below p h self = h
PostOrder-Below p h (child b k) = PostOrder-closed p _ _ (PostOrder-Below p h b) k

pub mem_here : (x : ℕ) (xs : List ℕ) → mem x (x ∷ xs) ≡ true
unfolding mem
mem_here x xs = ground arith

pub mem_there : (x y : ℕ) (xs : List ℕ) → mem x xs ≡ true → mem x (y ∷ xs) ≡ true
unfolding mem
mem_there x y xs h = ground arith

pub mem_cases : (x y : ℕ) (xs : List ℕ) → mem x (y ∷ xs) ≡ true → (x ≡ y) ⊎ (mem x xs ≡ true)
unfolding mem
mem_cases x y xs h = ground arith
