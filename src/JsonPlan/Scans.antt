-- ===== src/JsonPlan/Scans.antt =====
-- Pruning and the table scans of a plan.
use db_query_optimizer.Common.{
  ℕ, ◌+◌, true, false, not, Option, none, some, List, if◌then◌else◌, all, ◌≡◌, refl, ap, ◌∙◌, arith,
  Bool-cases, Option-cases, inl, inr,
}
use db_query_optimizer.Common.Text.{Text, text_eq, one_of}
use db_query_optimizer.Catalog.Laws.{one_of-all}
use db_query_optimizer.Ir.{JsonRawData, NodeData, Plan, Plans, null, node, nil, cons}
use db_query_optimizer.JsonPlan.{
  hash_types, gather_types, agg_types, bitmap_types, scan_types, sort_types, is_node_type,
  remove_deep, merge_bitmap, holds_agg, holds_sort, swap_agg_sort, abstracted, collapse_bitmap,
  prune_single, prune_node, prune_tree, prune_trees,
}

-- One for the raw data of a table scan.
unfoldable pub raw_scans : Option JsonRawData → ℕ
raw_scans raw = elim raw [ none ↦ 0 | some r ↦ if one_of scan_types r.node_type then 1 else 0 ]

abbrev mutual
  -- The table scans of a plan.
  pub scans : Plan → ℕ
  scans null = 0
  scans (node d cs) = raw_scans d.raw_json + scans_in cs

  pub scans_in : Plans → ℕ
  scans_in nil = 0
  scans_in (cons p ps) = scans p + scans_in ps

-- Types that are no scans.
no_scan :
    (types : List Text) (t : Text)
    → all (λ u. not (one_of scan_types u)) types ≡ true
    → one_of types t ≡ true
    → one_of scan_types t ≡ false
no_scan types t h k =
    let e = one_of-all (λ u. not (one_of scan_types u)) types t h k in ground arith

raw_no_scan :
    (types : List Text) (d : NodeData)
    → all (λ u. not (one_of scan_types u)) types ≡ true
    → is_node_type d types ≡ true
    → raw_scans d.raw_json ≡ 0
unfolding is_node_type raw_scans
raw_no_scan types d h k = elim (Option-cases d.raw_json) [
  | inl e ↦ rw e refl
  | inr (raw, e) ↦
      let listed : one_of types raw.node_type ≡ true = rw e at k in
      rw (e, no_scan types raw.node_type h listed) refl
]

scans-remove_deep :
    (types : List Text) (p : Plan)
    → all (λ u. not (one_of scan_types u)) types ≡ true
    → scans (remove_deep types p) ≡ scans p
unfolding remove_deep
scans-remove_deep types null h = refl
scans-remove_deep types (node d nil) h = refl
scans-remove_deep types (node d (cons c nil)) h = elim (Bool-cases (is_node_type d types)) [
  | inl e ↦ rw e (omega (arith, raw_no_scan types d h e))
  | inr e ↦ rw e (omega (arith, scans-remove_deep types c h))
]
scans-remove_deep types (node d (cons c (cons e rest))) h =
    elim (Bool-cases (is_node_type d types)) [
      | inl y ↦ rw y refl
      | inr n ↦ rw n (omega (arith, scans-remove_deep types c h))
    ]

scans-swap :
    (d : NodeData) (cs : Plans) → scans (swap_agg_sort d cs) ≡ raw_scans d.raw_json + scans_in cs
unfolding swap_agg_sort
scans-swap d nil = refl
scans-swap d (cons null rest) = refl
scans-swap d (cons (node e es) rest) = elim (Bool-cases (holds_agg d.abstract_data)) [
  | inl a ↦ elim (Bool-cases (holds_sort e.abstract_data)) [
    | inl s ↦ rw (a, s) (omega arith)
    | inr s ↦ rw (a, s) refl
  ]
  | inr a ↦ rw a refl
]

scans-abstracted :
    (raw : JsonRawData) (d : NodeData) (cs : Plans)
    → scans (abstracted raw d cs) ≡ raw_scans (some raw) + scans_in cs
unfolding abstracted
scans-abstracted raw d cs = scans-swap _ cs

raw_listed :
    (types : List Text) (raw : JsonRawData)
    → all (λ u. not (one_of scan_types u)) types ≡ true
    → one_of types raw.node_type ≡ true
    → raw_scans (some raw) ≡ 0
unfolding raw_scans
raw_listed types raw h k = rw (no_scan types raw.node_type h k) refl

merge_same :
    (raw below : JsonRawData) → raw_scans (some (merge_bitmap raw below)) ≡ raw_scans (some raw)
unfolding raw_scans merge_bitmap
merge_same raw below = refl

scans-collapse :
    (raw : JsonRawData) (d : NodeData) (c : Plan)
    → scans (collapse_bitmap raw d c) ≡ raw_scans (some raw) + scans c
unfolding collapse_bitmap all one_of text_eq raw_scans
scans-collapse raw d null = omega (arith, scans-abstracted raw d (cons null nil))
scans-collapse raw d (node e es) = elim (Bool-cases (is_node_type e bitmap_types)) [
  | inl y ↦
      let none_here : raw_scans e.raw_json ≡ 0 = raw_no_scan bitmap_types e refl y in
      elim (Option-cases e.raw_json) [
        | inl r ↦ rw (y, r) (omega (arith, scans-abstracted raw d es, none_here))
        | inr (below, r) ↦
            rw (y, r)
              (omega (
                arith,
                scans-abstracted (merge_bitmap raw below) d es,
                merge_same raw below,
                none_here,
                ap raw_scans r,
              ))
      ]
  | inr n ↦ rw n (omega (arith, scans-abstracted raw d (cons (node e es) nil)))
]

-- The cases of a node with one child that stays.
module _ (raw : JsonRawData) (d : NodeData) (c : Plan) (h : one_of hash_types raw.node_type ≡ false)
    (g : one_of gather_types raw.node_type ≡ false) where
  single_sort :
      one_of sort_types raw.node_type ≡ true
      → prune_single raw d c ≡ abstracted raw d (cons (remove_deep sort_types c) nil)
  unfolding prune_single
  single_sort s = ground arith

  single_bitmap :
      one_of sort_types raw.node_type ≡ false
      → one_of bitmap_types raw.node_type ≡ true
      → prune_single raw d c ≡ collapse_bitmap raw d c
  unfolding prune_single
  single_bitmap s b = ground arith

  single_other :
      one_of sort_types raw.node_type ≡ false
      → one_of bitmap_types raw.node_type ≡ false
      → prune_single raw d c ≡ abstracted raw d (cons c nil)
  unfolding prune_single
  single_other s b = ground arith

scans-single :
    (raw : JsonRawData) (d : NodeData) (c : Plan)
    → scans (prune_single raw d c) ≡ raw_scans (some raw) + scans c
unfolding prune_single all one_of text_eq
scans-single raw d c = elim (Bool-cases (one_of hash_types raw.node_type)) [
  | inl h ↦ rw (prune_single, h) (omega (arith, raw_listed hash_types raw refl h))
  | inr h ↦ elim (Bool-cases (one_of gather_types raw.node_type)) [
    | inl g ↦
        rw (prune_single, h, g)
          (omega (arith, raw_listed gather_types raw refl g, scans-remove_deep agg_types c refl))
    | inr g ↦ elim (Bool-cases (one_of sort_types raw.node_type)) [
      | inl s ↦
          ap scans (single_sort raw d c h g s)
          ∙ omega (
            arith,
            scans-abstracted raw d (cons (remove_deep sort_types c) nil),
            scans-remove_deep sort_types c refl,
          )
      | inr s ↦ elim (Bool-cases (one_of bitmap_types raw.node_type)) [
        | inl b ↦ ap scans (single_bitmap raw d c h g s b) ∙ scans-collapse raw d c
        | inr b ↦
            ap scans (single_other raw d c h g s b)
            ∙ omega (arith, scans-abstracted raw d (cons c nil))
      ]
    ]
  ]
]

scans-prune_node :
    (d : NodeData) (cs : Plans) → scans (prune_node d cs) ≡ raw_scans d.raw_json + scans_in cs
unfolding prune_node
scans-prune_node d cs = go d.raw_json refl cs
  where
    go :
        (r : Option JsonRawData)
        → d.raw_json ≡ r
        → (cs : Plans) → scans (prune_node d cs) ≡ raw_scans d.raw_json + scans_in cs
    go none e cs = rw (prune_node, e) (omega (arith, ap raw_scans e))
    go (some raw) e nil = rw (prune_node, e) (scans-abstracted raw d nil)
    go (some raw) e (cons c nil) = rw (prune_node, e) (omega (arith, scans-single raw d c))
    go (some raw) e (cons c (cons x more)) =
        rw (prune_node, e) (scans-abstracted raw d (cons c (cons x more)))

mutual
  unfolding prune_tree prune_trees

  scans_plan : (p : Plan) → scans (prune_tree p) ≡ scans p
  scans_plan null = refl
  scans_plan (node d cs) = omega (arith, scans-prune_node d (prune_trees cs), scans_plans cs)

  scans_plans : (ps : Plans) → scans_in (prune_trees ps) ≡ scans_in ps
  scans_plans nil = refl
  scans_plans (cons p ps) = omega (arith, scans_plan p, scans_plans ps)

-- Pruning a raw plan keeps the number of its table scans.
pub scans-prune_tree : (p : Plan) → scans (prune_tree p) ≡ scans p
scans-prune_tree = scans_plan
