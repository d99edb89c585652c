-- ===== src/Materialize/GrandChildren/Rewires.antt =====
-- About the rewiring of one node.
use db_query_optimizer.Heap.Replaced.{replace-map}
use db_query_optimizer.Materialize.GrandChildren.Kept.{
  made_by, two_elements, Kept-refl, replace-AreNodes, mat_node, IsComplete, Kept, is_mat_op,
}
use db_query_optimizer.Ir.Shape.{OpShape}
use db_query_optimizer.Base.{TableColumn}
use db_query_optimizer.Common.{
  false, ◌&&◌, if◌then◌else◌, ◌<◌, All, true, ◌∙◌, ap, Option, ◌≤◌, sym, subst, arith, ◌≡◌, length,
  Bool, ℕ, [], ◌∷◌, List, refl, none, some,
}
use db_query_optimizer.Heap.{
  no_child, no_input, at, pure, Cmd, Run, store, ok, node_at, Heap, PlanNode, ◌>>=◌,
}
use db_query_optimizer.Heap.Valid.{
  at_eq, wired_always, get_elem-returns, Never, returns, Ends, load_eq, node_at-IsNode, OpIsWired,
  IsNode, IsHeap,
}
use db_query_optimizer.Materialize.GrandChildren.{
  is_mat, values_of, find_values, set_two, rewired, optimize_filter, optimize_values,
}

-- An entry that was found is older than the nodes that were searched.
abbrev IsOlder : ℕ → Option (ℕ × TableColumn) → Type 0
IsOlder n none = Unit
IsOlder n (some (b, c)) = b < n

-- The rest of the loop, with what the first child outputs.
after_values :
    (c : TableColumn) (b : ℕ) (bs : List ℕ) (n : ℕ) (h : Heap)
    → b < n
    → (o : Option (ℕ × TableColumn)) × (find_values c bs h ≡ ok o h) × IsOlder n o
    → (v : Option TableColumn)
    → (o : Option (ℕ × TableColumn)) × ((elim v as (λ _. Cmd (Option (ℕ × TableColumn))) [
      | some o ↦ pure (some (b, o))
      | none ↦ find_values c bs
    ])
          h
        ≡ ok o h)
      × IsOlder n o
after_values c b bs n h lt rest (some o) = (some (b, o), refl, lt)
after_values c b bs n h lt rest none = rest

find_values-returns :
    (c : TableColumn) (bs : List ℕ) (n : ℕ) (h : Heap)
    → IsHeap h
    → n ≤ length h.nodes
    → All (λ b. b < n) bs
    → (o : Option (ℕ × TableColumn)) × (find_values c bs h ≡ ok o h) × IsOlder n o
unfolding find_values
find_values-returns c [] n h valid le lt = (none, refl, tt)
find_values-returns c (b ∷ bs) n h valid le (lt, lts) =
    let (m, e, v) = node_at-IsNode h.missing h.nodes b valid (omega arith) in
    let (o, f, older) =
      after_values c b bs n h lt (find_values-returns c bs n h valid le lts)
        (values_of c m.ir_data) in
    (o, rw (find_values, load_eq b h m e) f, older)

-- A run that keeps a heap: it does not fault.
abbrev pub Keeps : {A : Type 0} → Heap → Run A → Type 0
Keeps h = Ends (λ u k. Kept h k) Never

-- A step that is taken under a condition.
pub if_Keeps :
    (h : Heap)
    → IsComplete h
    → (b : Bool) (m : Cmd Unit) → (b ≡ true → Keeps h (m h))
    → Keeps h ((if b then m else pure tt) h)
if_Keeps h complete true m keeps = keeps refl
if_Keeps h complete false m keeps = returns (Kept-refl h complete)

set_two_lem : {A : Type 0} (x y : A) (xs : List A) → length xs ≡ 2 → set_two x y xs ≡ x ∷ y ∷ []
unfolding set_two
set_two_lem x y [] e = absurd (omega (arith, e))
set_two_lem x y (v ∷ []) e = absurd (omega (arith, e))
set_two_lem x y (v ∷ w ∷ []) e = refl
set_two_lem x y (v ∷ w ∷ z ∷ r) e = absurd (omega (arith, e))

rewired-IsNode :
    (missing : List TableColumn) (a b g : ℕ) (n : PlanNode) (col filter_col : TableColumn)
    → IsNode missing a n
    → missing ≡ []
    → is_mat n.ir_data.op_info ≡ true
    → b < a
    → g < a
    → IsNode missing a (rewired n b col g filter_col)
unfolding rewired
rewired-IsNode missing a b g n col filter_col v e t bo go =
    let op = is_mat_op n.ir_data.op_info t in
    let two = mat_node missing a n v e t in
    let ins = set_two_lem col filter_col n.ir_data.input_columns two.0 in
    let children = set_two_lem b g n.children two.1 in
    let shape : (length n.ir_data.input_columns ≡ 2) × (length n.ir_data.output_cols ≡ 1) =
      subst (λ i. OpShape i n.ir_data.input_columns n.ir_data.output_cols) op v.shape in
    record {
      shape =
          subst
            (λ i. OpShape i (set_two col filter_col n.ir_data.input_columns) n.ir_data.output_cols)
            (sym op) (ap length ins, shape.1);
      outputs = v.outputs;
      older = subst (All (λ c. c < a)) (sym children) (bo, (go, tt));
      wired = wired_always missing (rewired n b col g filter_col) (
          subst
            (λ i.
              OpIsWired i (set_two col filter_col n.ir_data.input_columns) (set_two b g n.children))
            (sym op) (ap length children ∙ sym (ap length ins)));
    }

module _ (a : ℕ) (n : PlanNode) (h : Heap) (complete : IsComplete h)
    (at_a : node_at h.nodes a ≡ some n) (older : a < length h.nodes) (mine : IsNode h.missing a n)
    (mat : is_mat n.ir_data.op_info ≡ true) where
  rewired-Kept :
      (b g : ℕ) (col filter_col : TableColumn)
      → b < a
      → g < a
      → Keeps h (store a (rewired n b col g filter_col) h)
  unfolding store rewired
  rewired-Kept b g col filter_col bo go =
      let new = rewired-IsNode h.missing a b g n col filter_col mine complete.1 mat bo go in
      returns (record {
        complete = (
          replace-AreNodes h.missing h.nodes a (rewired n b col g filter_col) complete.0 new,
          complete.1,
        );
        same = replace-map made_by h.nodes a n (rewired n b col g filter_col) at_a refl;
      })

  store_found :
      (f : PlanNode) (filter g : ℕ)
      → filter < a
      → g < filter
      → length f.ir_data.input_columns ≡ 2
      → (o : Option (ℕ × TableColumn)) → IsOlder g o
      → Keeps h (
          (elim o as (λ _. Cmd Unit) [
            | none ↦ pure tt
            | some (b, col) ↦ do
              filter_col ← at no_input f.ir_data.input_columns 1
              store a (rewired n b col g filter_col)
          ])
            h)
  store_found f filter g fo go two none old = returns (Kept-refl h complete)
  store_found f filter g fo go two (some (b, col)) old =
      let (c, e) = get_elem-returns f.ir_data.input_columns 1 (omega (arith, two)) in
      rw (at_eq no_input f.ir_data.input_columns 1 h c e)
        (rewired-Kept b g col c (omega (arith, old)) (omega arith))

  optimize_filter-Keeps :
      (f : PlanNode) (filter : ℕ)
      → filter < a
      → IsNode h.missing filter f
      → is_mat f.ir_data.op_info ≡ true
      → Keeps h (optimize_filter a n f h)
  unfolding optimize_filter
  optimize_filter-Keeps f filter fo v fm =
      let mine_two = mat_node h.missing a n mine complete.1 mat in
      let two = mat_node h.missing filter f v complete.1 fm in
      let (x, g, children) = two_elements f.children two.1 in
      let olds = subst (All (λ c. c < filter)) children v.older in
      let (inner, e, w) = node_at-IsNode h.missing h.nodes g complete.0 (omega (arith, olds.1.0)) in
      let (idx, i) = get_elem-returns n.ir_data.input_columns 0 (omega (arith, mine_two.0)) in
      let (o, r, old) =
        find_values-returns idx inner.children g h complete.0 (omega (arith, olds.1.0)) w.older in
      rw (optimize_filter, at_eq no_child f.children 1 h g (rw children refl))
        (rw (load_eq g h inner e) (
          rw (at_eq no_input n.ir_data.input_columns 0 h idx i)
            (rw r (store_found f filter g fo olds.1.0 two.0 o old))))

  by_filter :
      (f : PlanNode) (filter : ℕ)
      → filter < a
      → IsNode h.missing filter f
      → Keeps h (
          (if is_mat f.ir_data.op_info && f.ir_data.outputs_pos_list
              then optimize_filter a n f
              else pure tt)
            h)
  by_filter f filter fo v =
      if_Keeps h complete (is_mat f.ir_data.op_info && f.ir_data.outputs_pos_list)
        (optimize_filter a n f) (λ e. optimize_filter-Keeps f filter fo v (ground arith))

  pub optimize_values-Keeps : Keeps h (optimize_values a n h)
  unfolding optimize_values
  optimize_values-Keeps =
      let two = mat_node h.missing a n mine complete.1 mat in
      let (x, filter, children) = two_elements n.children two.1 in
      let olds = subst (All (λ c. c < a)) children mine.older in
      let (f, e, v) =
        node_at-IsNode h.missing h.nodes filter complete.0 (omega (arith, olds.1.0)) in
      rw (optimize_values, at_eq no_child n.children 1 h filter (rw children refl))
        (rw (load_eq filter h f e) (by_filter f filter olds.1.0 v))
