-- ===== src/Heap/FilterCol/Found.antt =====
-- About the search for a join's output: its rounds, and the index that it gives.
use db_query_optimizer.Common.{
  ◌⊎◌, subst, ℕ, zero, suc, ◌+◌, ◌≤◌, ◌<◌, Bool, true, false, some, List, [], ◌∷◌, ◌++◌, map,
  length, All, any, length-append, length-map, ◌≡◌, arith, refl, ap, ◌==◌, Bool-cases, inl, inr,
  if◌then◌else◌,
}
use db_query_optimizer.Base.{TableColumn, table_eq}
use db_query_optimizer.Ir.{OpInfo, join_op, JoinOp}
use db_query_optimizer.Heap.{
  Fault, no_output, PlanNode, Heap, Run, ok, fault, no_child, Cmd, pure, node_at,
}
use db_query_optimizer.Heap.FilterCol.{
  search, unvisited, has_table, is_join, det_filter_col_idx, search_below, second_output,
  join_output,
}
use db_query_optimizer.Ir.Shape.{OpShape}
use db_query_optimizer.Heap.Valid.{
  OpIsWired, Ends-wider, IsHeap, IsNode, node_at-IsNode, Unprovided, unprovided, Ends, returns,
  stops, Never, load_eq, at_eq, get_elem-returns,
}

abbrev seen : List ℕ → ℕ → Bool
seen visited a = any (λ v. v == a) visited

-- Visiting a node that is no older than a heap leaves the count of that heap.
unvisited_newer :
    (visited : List ℕ) (a : ℕ) (ns : List PlanNode)
    → length ns ≤ a
    → unvisited (a ∷ visited) ns ≡ unvisited visited ns
unfolding unvisited any
unvisited_newer visited a [] h = refl
unvisited_newer visited a (n ∷ ns) h = ground (arith, unvisited_newer visited a ns)

-- Visiting a node takes its children off the count.
unvisited_visit :
    (visited : List ℕ) (a : ℕ) (ns : List PlanNode) (n : PlanNode)
    → node_at ns a ≡ some n
    → seen visited a ≡ false
    → unvisited (a ∷ visited) ns + length n.children ≡ unvisited visited ns
unfolding unvisited any node_at
unvisited_visit visited a [] n e s = cc
unvisited_visit visited a (m ∷ ns) n e s = elim (Bool-cases (a == length ns)) [
  | inl f ↦ ground (arith, unvisited_newer visited a ns)
  | inr f ↦ ground (arith, unvisited_visit visited a ns n)
]

-- Every entry of the queue has an index of an output and the address of a node.
abbrev Queued : ℕ → List (ℕ × ℕ) → Type 0
Queued n = All (λ e. (e.0 < 2) × (e.1 < n))

Queued-append :
    (n : ℕ) (q : List (ℕ × ℕ)) (i : ℕ) (cs : List ℕ)
    → i < 2
    → Queued n q
    → All (λ c. c < n) cs
    → Queued n (q ++ map (λ b. (i, b)) cs)
Queued-append n (e ∷ q) i cs lt (h, hs) k = (h, Queued-append n q i cs lt hs k)
Queued-append n [] i [] lt hs k = tt
Queued-append n [] i (c ∷ cs) lt hs (k, ks) = ((lt, k), Queued-append n [] i cs lt tt ks)

pub All-below : (a n : ℕ) (cs : List ℕ) → a ≤ n → All (λ c. c < a) cs → All (λ c. c < n) cs
All-below a n [] le h = tt
All-below a n (c ∷ cs) le (h, hs) = (omega arith, All-below a n cs le hs)

-- A search gives the index of an output, and leaves the heap.
abbrev Gives : Heap → Run ℕ → Type 0
Gives h = Ends (λ i k. (i < 2) × (k ≡ h)) Never

-- The end of a round at a node that was not visited.
expand-Gives :
    (fuel : ℕ) (c : TableColumn) (visited : List ℕ) (i a : ℕ) (queue : List (ℕ × ℕ)) (h : Heap)
    (n : PlanNode)
    → i < 2
    → Gives h (search fuel c (a ∷ visited) (queue ++ map (λ b. (i, b)) n.children) h)
    → Gives h (
        (elim (has_table c n.ir_data.output_cols) as (λ _. Cmd ℕ) [
          | true ↦ pure i
          | false ↦ search fuel c (a ∷ visited) (queue ++ map (λ b. (i, b)) n.children)
        ])
          h)
expand-Gives fuel c visited i a queue h n lt later =
    elim (Bool-cases (has_table c n.ir_data.output_cols)) [
      | inl t ↦ rw t (returns (lt, refl))
      | inr t ↦ rw t later
    ]

pub search-Gives :
    (fuel : ℕ) (c : TableColumn) (visited : List ℕ) (queue : List (ℕ × ℕ)) (h : Heap)
    → IsHeap h
    → Queued (length h.nodes) queue
    → length queue + unvisited visited h.nodes < fuel
    → Gives h (search fuel c visited queue h)
unfolding search
search-Gives zero c visited queue h valid q lt = absurd (omega arith)
search-Gives (suc fuel) c visited [] h valid q lt = returns (omega arith, refl)
search-Gives (suc fuel) c visited ((i, a) ∷ queue) h valid ((qi, qa), qs) lt =
    elim (Bool-cases (seen visited a)) [
      | inl e ↦ rw (search, e) (search-Gives fuel c visited queue h valid qs (omega arith))
      | inr e ↦
          let (n, f, v) = node_at-IsNode h.missing h.nodes a valid qa in
          let pairs : List (ℕ × ℕ) = map (λ b. (i, b)) n.children in
          let later =
            search-Gives fuel c (a ∷ visited) (queue ++ pairs) h valid
              (Queued-append (length h.nodes) queue i n.children qi qs
                (All-below a (length h.nodes) n.children (omega arith) v.older))
              (omega (
                arith,
                length-append queue pairs,
                length-map {B = ℕ × ℕ} n.children (λ b. (i, b)),
                unvisited_visit visited a h.nodes n f e,
              )) in
          rw (search, e) (rw (load_eq a h n f) (expand-Gives fuel c visited i a queue h n qi later))
    ]

-- What is given for a node: an index of one of its outputs, and the heap as it was.
abbrev pub InOutputs : Heap → PlanNode → ℕ → Heap → Type 0
InOutputs h n i k = (i < length n.ir_data.output_cols) × (i < 2) × (k ≡ h)

-- The one fault that is possible.
abbrev pub UnprovidedOn : Heap → Fault → Heap → Type 0
UnprovidedOn h f k = Unprovided f h.missing × (k ≡ h)

-- The index of a node's output.
abbrev pub Finds : Heap → PlanNode → Run ℕ → Type 0
Finds h n = Ends (InOutputs h n) (UnprovidedOn h)

module _ (c : TableColumn) (h : Heap) (n : PlanNode) (valid : IsHeap h)
    (two : length n.ir_data.output_cols ≡ 2) (older : All (λ b. b < length h.nodes) n.children)
    (wired : length n.children < 2 → Unprovided no_child h.missing) where
  search_below-Finds : (cs : List ℕ) → n.children ≡ cs → Finds h n (search_below c n h)
  unfolding search_below
  search_below-Finds [] e = rw (search_below, e) (stops (wired (rw e (omega arith)), refl))
  search_below-Finds (l ∷ []) e = rw (search_below, e) (stops (wired (rw e (omega arith)), refl))
  search_below-Finds (l ∷ r ∷ cs) e =
      let bounds = subst (All (λ b. b < length h.nodes)) e older in
      let gives =
        search-Gives (3 + unvisited [] h.nodes) c [] ((0, l) ∷ (1, r) ∷ []) h valid
          ((omega arith, bounds.0), ((omega arith, bounds.1.0), tt)) (omega arith) in
      let found =
        Ends-wider gives (λ i k g. (omega (arith, g.0, two), g.0, g.1)) (λ f k g. absurd g) in
      rw (search_below, at_eq no_child n.children 0 h l (rw e refl))
        (rw (at_eq no_child n.children 1 h r (rw e refl)) found)

  second_output-Finds : Finds h n (second_output c n h)
  unfolding second_output
  second_output-Finds =
      let (o, e) = get_elem-returns n.ir_data.output_cols 1 (omega (arith, two)) in
      rw (second_output, at_eq no_output n.ir_data.output_cols 1 h o e) (by_table o)
    where
      by_table :
          (o : TableColumn)
          → Finds h n ((if table_eq o.table c.table then pure 1 else search_below c n) h)
      by_table o = elim (Bool-cases (table_eq o.table c.table)) [
        | inl t ↦ rw t (returns (omega (arith, two), omega arith, refl))
        | inr t ↦ rw t (search_below-Finds n.children refl)
      ]

  join_output-Finds : Finds h n (join_output c n h)
  unfolding join_output
  join_output-Finds =
      let (o, e) = get_elem-returns n.ir_data.output_cols 0 (omega (arith, two)) in
      rw (join_output, at_eq no_output n.ir_data.output_cols 0 h o e) (by_table o)
    where
      by_table :
          (o : TableColumn)
          → Finds h n ((if table_eq o.table c.table then pure 0 else second_output c n) h)
      by_table o = elim (Bool-cases (table_eq o.table c.table)) [
        | inl t ↦ rw t (returns (omega (arith, two), omega arith, refl))
        | inr t ↦ rw t second_output-Finds
      ]

is_join_op : (i : OpInfo) → is_join i ≡ true → (op : JoinOp) × (i ≡ join_op op)
unfolding is_join
is_join_op i h = ground arith

join_children :
    (missing : List TableColumn) (bound : ℕ) (n : PlanNode) (op : JoinOp)
    → n.ir_data.op_info ≡ join_op op
    → IsNode missing bound n
    → length n.children < 2
    → Unprovided no_child missing
join_children (m ∷ ms) bound n op e v lt = unprovided
join_children [] bound n op e v lt =
    let two : (length n.ir_data.input_columns ≡ 2) × (length n.ir_data.output_cols ≡ 2) =
      subst (λ i. OpShape i n.ir_data.input_columns n.ir_data.output_cols) e v.shape in
    let each : length n.children ≡ length n.ir_data.input_columns =
      subst (λ i. OpIsWired i n.ir_data.input_columns n.children) e v.wired in
    absurd (omega (arith, two.0, each))

Unprovided-some : (f : Fault) (ms : List TableColumn) → ms ≡ [] → Unprovided f ms → ⊥
Unprovided-some f [] e u = elim u [ ]
Unprovided-some f (c ∷ cs) e u = cc

pub det_filter_col_idx-Finds :
    (c : TableColumn) (a : ℕ) (h : Heap) (n : PlanNode)
    → IsHeap h
    → a < length h.nodes
    → node_at h.nodes a ≡ some n
    → IsNode h.missing a n
    → Finds h n (det_filter_col_idx c a h)
unfolding det_filter_col_idx
det_filter_col_idx-Finds c a h n valid lt e v =
    rw (det_filter_col_idx, load_eq a h n e) (by_kind (Bool-cases (is_join n.ir_data.op_info)))
  where
    by_kind :
        (is_join n.ir_data.op_info ≡ true) ⊎ (is_join n.ir_data.op_info ≡ false)
        → Finds h n ((if is_join n.ir_data.op_info then join_output c n else pure 0) h)
    by_kind (inr f) = rw f (returns (omega (arith, v.outputs), omega arith, refl))
    by_kind (inl t) =
        let (op, j) = is_join_op n.ir_data.op_info t in
        let two : (length n.ir_data.input_columns ≡ 2) × (length n.ir_data.output_cols ≡ 2) =
          subst (λ i. OpShape i n.ir_data.input_columns n.ir_data.output_cols) j v.shape in
        rw t (
          join_output-Finds c h n valid two.1
            (All-below a (length h.nodes) n.children (omega arith) v.older)
            (join_children h.missing a n op j v))

-- On a heap whose nodes have their shapes and on which no missing column was reported, the search
-- for the output that a column's table goes through ends within its rounds, whatever nodes
-- share children; it gives the index of an output of the node, and leaves the heap as it was.
pub det_filter_col_idx-returns :
    (c : TableColumn) (a : ℕ) (h : Heap)
    → IsHeap h
    → h.missing ≡ []
    → a < length h.nodes
    → (i : ℕ) × (n : PlanNode) × (node_at h.nodes a ≡ some n)
      × (det_filter_col_idx c a h ≡ ok i h)
      × (i < length n.ir_data.output_cols)
det_filter_col_idx-returns c a h valid none_missing lt =
    let (n, e, v) = node_at-IsNode h.missing h.nodes a valid lt in
    let (i, r, l) = no_stop h n none_missing _ (det_filter_col_idx-Finds c a h n valid lt e v) in
    (i, n, e, r, l)
  where
    no_stop :
        (h : Heap) (n : PlanNode)
        → h.missing ≡ []
        → (r : Run ℕ) → Finds h n r
        → (i : ℕ) × (r ≡ ok i h) × (i < length n.ir_data.output_cols)
    no_stop h n m (ok i k) (returns (l, _, e)) = (i, ap (ok i) e, l)
    no_stop h n m (fault f k) (stops (u, e)) = absurd (Unprovided-some f h.missing m u)
