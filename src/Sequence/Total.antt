-- ===== src/Sequence/Total.antt =====
-- On a graph without cycles the traversal returns the nodes below the root, in post-order.
use db_query_optimizer.Common.{
  ℕ, zero, suc, ◌<◌, ◌≤◌, Bool, true, false, Option, some, List, [], ◌∷◌, ◌++◌, ◌≡◌, ◌↔◌, ◌⊎◌, inl,
  inr, refl, sym, arith, subst, Bool-cases,
}
use native.Mathlib.Decide.{ℕ_discrete}
use db_query_optimizer.Sequence.{mem, Progress, visit_children, to_sequence_sub, to_sequence}
use db_query_optimizer.Sequence.Order.{
  mem_snoc_self, mem_snoc_old, mem_snoc_cases, PostOrder, start, next, Below, self, child,
  PostOrder-Below, mem_here, mem_there, mem_cases,
}

module _ (children : ℕ → List ℕ) where
  Below-trans : (n c x : ℕ) → mem c (children n) ≡ true → Below children c x → Below children n x
  Below-trans n c x k self = child self k
  Below-trans n c x k (child b j) = child (Below-trans n c _ k b) j

-- From `s` the traversal went on to `t`: what it put out anew was not visited before, and is in `R`;
-- what it visited anew it has put out.
record Grows (R : ℕ → Type 0) (s t : Progress) : Type 0 where
  keeps : (x : ℕ) → mem x s.post_order_list ≡ true → mem x t.post_order_list ≡ true
  keeps_visited : (x : ℕ) → mem x s.visited ≡ true → mem x t.visited ≡ true
  fresh :
      (x : ℕ)
      → mem x t.post_order_list ≡ true
      → (mem x s.post_order_list ≡ true) ⊎ ((mem x s.visited ≡ false) × R x)
  pending :
      (x : ℕ) → mem x t.visited ≡ true → (mem x t.post_order_list ≡ true) ⊎ (mem x s.visited ≡ true)

Grows-refl : {R : ℕ → Type 0} (s : Progress) → Grows R s s
Grows-refl s = record {
  keeps = λ x h. h;
  keeps_visited = λ x h. h;
  fresh = λ x h. inl h;
  pending = λ x h. inr h;
}

not_visited_before : (a b : Bool) → (a ≡ true → b ≡ true) → b ≡ false → a ≡ false
not_visited_before a b f h = ground arith

conflict : (b : Bool) → b ≡ true → b ≡ false → ⊥
conflict b h k = cc

not_in_nil : (x : ℕ) → mem x [] ≡ true → ⊥
unfolding mem
not_in_nil x h = cc

Grows-trans : {R : ℕ → Type 0} {s t u : Progress} → Grows R s t → Grows R t u → Grows R s u
Grows-trans {R} {s} {t} {u} g h = record {
  keeps = λ x k. h.keeps x (g.keeps x k);
  keeps_visited = λ x k. h.keeps_visited x (g.keeps_visited x k);
  fresh = λ x k. elim (h.fresh x k) [
    | inl old ↦ g.fresh x old
    | inr (new, r) ↦ inr (not_visited_before _ _ (g.keeps_visited x) new, r)
  ];
  pending = λ x k. elim (h.pending x k) [
    | inl done ↦ inl done
    | inr seen ↦ elim (g.pending x seen) [ inl done ↦ inl (h.keeps x done) | inr old ↦ inr old ]
  ];
}

Grows-map : {R Q : ℕ → Type 0} {s t : Progress} → ((x : ℕ) → R x → Q x) → Grows R s t → Grows Q s t
Grows-map f g = record {
  keeps = g.keeps;
  keeps_visited = g.keeps_visited;
  fresh = λ x k. elim (g.fresh x k) [ inl old ↦ inl old | inr (new, r) ↦ inr (new, f x r) ];
  pending = g.pending;
}

module _ (children : ℕ → List ℕ) (rank : ℕ → ℕ)
    (acyclic : (n c : ℕ) → mem c (children n) ≡ true → rank c < rank n) where
  -- What is put out is visited and in post-order; what is visited and not put out has a rank of
  -- `r` at least.
  record IsSound (r : ℕ) (s : Progress) : Type 0 where
    sub : (x : ℕ) → mem x s.post_order_list ≡ true → mem x s.visited ≡ true
    stack : (x : ℕ) → mem x s.visited ≡ true → (mem x s.post_order_list ≡ true) ⊎ (r ≤ rank x)
    post : PostOrder children s.post_order_list

  -- The traversal of `n` from `s` ends in `t`.
  record Visits (run : Option Progress) (R : ℕ → Type 0) (done : List ℕ) (s : Progress)
      : Type 0 where
    t : Progress
    runs : run ≡ some t
    sub : (x : ℕ) → mem x t.post_order_list ≡ true → mem x t.visited ≡ true
    post : PostOrder children t.post_order_list
    grows : Grows R s t
    all_done : (x : ℕ) → mem x done ≡ true → mem x t.post_order_list ≡ true

  abbrev VisitsNode : (ℕ → Progress → Option Progress) → ℕ → Progress → Type 0
  VisitsNode visit n s = Visits (visit n s) (Below children n) (n ∷ []) s

  after_Visits :
      {run : Option Progress} {R : ℕ → Type 0} {done : List ℕ} {s : Progress} (r : ℕ)
      → IsSound r s
      → (v : Visits run R done s) → IsSound r v.t
  after_Visits r i v = record {
    sub = v.sub;
    stack = λ x h. elim (v.grows.pending x h) [
      | inl done ↦ inl done
      | inr seen ↦ elim (i.stack x seen) [
        | inl old ↦ inl (v.grows.keeps x old)
        | inr high ↦ inr high
      ]
    ];
    post = v.post;
  }

  module _ (n : ℕ) (visit : ℕ → Progress → Option Progress)
      (visits : (c : ℕ) (s : Progress)
        → rank c < rank n
        → IsSound (suc (rank c)) s
        → mem c s.visited ≡ false
        → VisitsNode visit c s) where
    weaken :
        {s : Progress} (c : ℕ) → rank c < rank n → IsSound (rank n) s → IsSound (suc (rank c)) s
    weaken c lower i = record {
      sub = i.sub;
      stack = λ x h. elim (i.stack x h) [ inl done ↦ inl done | inr high ↦ inr (omega arith) ];
      post = i.post;
    }

    -- A child that was visited has been put out: it is no ancestor.
    skip :
        (c : ℕ) (cs : List ℕ) (s : Progress)
        → mem c s.visited ≡ true
        → (mem c s.post_order_list ≡ true) ⊎ (rank n ≤ rank c)
        → rank c < rank n
        → Visits (visit_children visit cs s) (Below children n) cs s
        → Visits (visit_children visit (c ∷ cs) s) (Below children n) (c ∷ cs) s
    unfolding visit_children
    skip c cs s seen (inr high) lower r = absurd (omega arith)
    skip c cs s seen (inl done) lower r = record {
      t = r.t;
      runs = rw seen r.runs;
      sub = r.sub;
      post = r.post;
      grows = r.grows;
      all_done = λ x h. elim (mem_cases x c cs h) [
        | inl same ↦ rw same (r.grows.keeps c done)
        | inr later ↦ r.all_done x later
      ];
    }

    -- A child that was not visited is traversed, and then the others.
    enter :
        (c : ℕ) (cs : List ℕ) (s : Progress)
        → mem c s.visited ≡ false
        → mem c (children n) ≡ true
        → (v : VisitsNode visit c s)
        → Visits (visit_children visit cs v.t) (Below children n) cs v.t
        → Visits (visit_children visit (c ∷ cs) s) (Below children n) (c ∷ cs) s
    unfolding visit_children
    enter c cs s unseen is_child v r = record {
      t = r.t;
      runs = rw (unseen, v.runs) r.runs;
      sub = r.sub;
      post = r.post;
      grows =
          Grows-trans (Grows-map (λ x b. Below-trans children n c x is_child b) v.grows) r.grows;
      all_done = λ x h. elim (mem_cases x c cs h) [
        | inl same ↦ rw same (r.grows.keeps c (v.all_done c (mem_here c [])))
        | inr later ↦ r.all_done x later
      ];
    }

    loop :
        (cs : List ℕ) (s : Progress)
        → ((c : ℕ) → mem c cs ≡ true → mem c (children n) ≡ true)
        → IsSound (rank n) s
        → Visits (visit_children visit cs s) (Below children n) cs s
    unfolding visit_children
    loop [] s all i = record {
      t = s;
      runs = refl;
      sub = i.sub;
      post = i.post;
      grows = Grows-refl s;
      all_done = λ x h. unfold mem in cc;
    }
    loop (c ∷ cs) s all i =
        let lower : rank c < rank n = acyclic n c (all c (mem_here c cs)) in
        let rest : (d : ℕ) → mem d cs ≡ true → mem d (children n) ≡ true =
          λ d h. all d (mem_there d c cs h) in
        elim (Bool-cases (mem c s.visited)) [
          | inl seen ↦ skip c cs s seen (i.stack c seen) lower (loop cs s rest i)
          | inr unseen ↦
              let v : VisitsNode visit c s = visits c s lower (weaken c lower i) unseen in
              enter c cs s unseen (all c (mem_here c cs)) v
                (loop cs v.t rest (after_Visits (rank n) i v))
        ]

  -- The node is not put out while it is on the stack.
  absent :
      {R : ℕ → Type 0} {s t : Progress} (n : ℕ)
      → ((x : ℕ) → mem x s.post_order_list ≡ true → mem x s.visited ≡ true)
      → mem n s.visited ≡ false
      → Grows R (record s { visited = n ∷ s.visited }) t
      → mem n t.post_order_list ≡ false
  absent {R} {s} {t} n sub unseen g = elim (Bool-cases (mem n t.post_order_list)) [
    | inr out ↦ out
    | inl inside ↦ elim (g.fresh n inside) [
      | inl old ↦ absurd (conflict _ (sub n old) unseen)
      | inr (new, _) ↦ absurd (conflict _ (mem_here n s.visited) new)
    ]
  ]

  snoc_cases : (x n : ℕ) (xs : List ℕ) → mem x (xs ++ n ∷ []) ≡ true → (x ≡ n) ⊎ (mem x xs ≡ true)
  snoc_cases x n xs h = elim (ℕ_discrete x n) [
    | yes same ↦ inl same
    | no other ↦ inr (mem_snoc_cases x n xs h other)
  ]

  -- The step from the state before the node to the one after it.
  grown :
      {s t : Progress} (n : ℕ)
      → mem n s.visited ≡ false
      → Grows (Below children n) (record s { visited = n ∷ s.visited }) t
      → Grows (Below children n) s (record t { post_order_list = t.post_order_list ++ n ∷ [] })
  grown {s} {t} n unseen g = record {
    keeps = λ x h. mem_snoc_old x n t.post_order_list (g.keeps x h);
    keeps_visited = λ x h. g.keeps_visited x (mem_there x n s.visited h);
    fresh = λ x h. elim (snoc_cases x n t.post_order_list h) [
      | inl same ↦ inr (rw same unseen, subst (Below children n) (sym same) self)
      | inr old ↦ elim (g.fresh x old) [
        | inl before ↦ inl before
        | inr (new, r) ↦ inr (not_visited_before _ _ (mem_there x n s.visited) new, r)
      ]
    ];
    pending = λ x h. elim (g.pending x h) [
      | inl done ↦ inl (mem_snoc_old x n t.post_order_list done)
      | inr seen ↦ elim (mem_cases x n s.visited seen) [
        | inl same ↦ inl (rw same (mem_snoc_self n t.post_order_list))
        | inr old ↦ inr old
      ]
    ];
  }

  -- The node itself: it goes on the stack, its children are traversed, and it is put out.
  close_node :
      (fuel n : ℕ) (s : Progress)
      → IsSound (suc (rank n)) s
      → mem n s.visited ≡ false
      → Visits
          (visit_children
            (to_sequence_sub children fuel)
            (children n)
            (record s { visited = n ∷ s.visited }))
          (Below children n)
          (children n)
          (record s { visited = n ∷ s.visited })
      → VisitsNode (to_sequence_sub children (suc fuel)) n s
  unfolding to_sequence_sub
  close_node fuel n s i unseen v = record {
    t = record v.t { post_order_list = v.t.post_order_list ++ n ∷ [] };
    runs = rw v.runs;
    sub = λ x h. elim (snoc_cases x n v.t.post_order_list h) [
      | inl same ↦ rw same (v.grows.keeps_visited n (mem_here n s.visited))
      | inr old ↦ v.sub x old
    ];
    post = next n v.post v.all_done (absent n i.sub unseen v.grows) refl;
    grows = grown n unseen v.grows;
    all_done = λ x h. elim (mem_cases x n [] h) [
      | inl same ↦ rw same (mem_snoc_self n v.t.post_order_list)
      | inr none_left ↦ absurd (not_in_nil x none_left)
    ];
  }

  on_stack :
      (n : ℕ) (s : Progress)
      → IsSound (suc (rank n)) s
      → IsSound (rank n) (record s { visited = n ∷ s.visited })
  on_stack n s i = record {
    sub = λ x h. mem_there x n s.visited (i.sub x h);
    stack = λ x h. elim (mem_cases x n s.visited h) [
      | inl same ↦ inr (rw same (omega arith))
      | inr seen ↦ elim (i.stack x seen) [ inl done ↦ inl done | inr high ↦ inr (omega arith) ]
    ];
    post = i.post;
  }

  visits_node :
      (fuel n : ℕ) (s : Progress)
      → rank n < fuel
      → IsSound (suc (rank n)) s
      → mem n s.visited ≡ false
      → VisitsNode (to_sequence_sub children fuel) n s
  visits_node zero n s h i unseen = absurd (omega arith)
  visits_node (suc fuel) n s h i unseen = close_node fuel n s i unseen (
      loop n (to_sequence_sub children fuel)
        (λ c t lower j new. visits_node fuel c t (omega arith) j new) (children n)
        (record s { visited = n ∷ s.visited }) (λ c k. k) (on_stack n s i))

  empty_progress-IsSound : (r : ℕ) → IsSound r (record { visited = []; post_order_list = [] })
  empty_progress-IsSound r = record {
    sub = λ x h. absurd (not_in_nil x h);
    stack = λ x h. absurd (not_in_nil x h);
    post = start;
  }

  only-Below :
      (n : ℕ) {t : Progress}
      → Grows (Below children n) (record { visited = []; post_order_list = [] }) t
      → (x : ℕ) → mem x t.post_order_list ≡ true
      → Below children n x
  only-Below n g x h = elim (g.fresh x h) [ inl old ↦ absurd (not_in_nil x old) | inr (_, b) ↦ b ]

  -- Where the children of each node have a smaller rank, and the fuel is above the rank of the
  -- root, the traversal ends: the list is in post-order (each node once, behind its children), and
  -- it holds a node just when that node can be reached from the root.
  pub to_sequence-PostOrder :
      (fuel n : ℕ)
      → rank n < fuel
      → (xs : List ℕ) × (to_sequence children fuel n ≡ some xs)
        × PostOrder children xs
        × ((x : ℕ) → (mem x xs ≡ true) ↔ Below children n x)
  unfolding to_sequence
  to_sequence-PostOrder fuel n h =
      let v =
        visits_node fuel n (record { visited = []; post_order_list = [] }) h
          (empty_progress-IsSound (suc (rank n))) (unfold mem in refl) in
      (
        v.t.post_order_list,
        rw v.runs,
        v.post,
        λ x. (only-Below n v.grows x, λ b. PostOrder-Below v.post (v.all_done n (mem_here n [])) b),
      )
