-- ===== src/AbstractToIr/Wired.antt =====
-- The chains of items and of filters.
use db_query_optimizer.Common.{
  ◌≤◌, Bool, false, Option, some, List, [], ◌∷◌, ◌++◌, length, All, ◌≡◌, refl, arith, ap, ◌∙◌,
}
use db_query_optimizer.Common.Text.{Text}
use db_query_optimizer.Base.{OrderDescription, make_table, make_column}
use db_query_optimizer.Ir.{
  IrData, OpInfo, agg_op, AbstractAgg, NodeData, Plan, Plans, null, node, nil, cons,
}
use db_query_optimizer.Ir.FetchView
use db_query_optimizer.Ir.FilterView
use db_query_optimizer.Optimizations.AggMove.Count.{IsReady, OpIsFed}
use db_query_optimizer.TransformHelpers.ConditionParser.{ParsedCondition}
use db_query_optimizer.AstToIr.{fresh_node}
use db_query_optimizer.AbstractToIr.{
  wire_items, take_over, wired_agg, sort_column, orders, filter_of, fetch_of, filter_chain,
  source_node, filters_of,
}
use db_query_optimizer.AbstractToIr.Sound.{MappingIsSound, fetched}
use db_query_optimizer.AbstractToIr.Items.{IsItem, agg_items_lem}

pub fed_alone : (i : OpInfo) (p : Plan) → OpIsFed i (cons p nil)
fed_alone (agg_op op) p = refl
fed_alone _ p = tt

pub append_nil : {A : Type 0} (xs : List A) → xs ++ [] ≡ xs
append_nil [] = refl
append_nil (x ∷ xs) = ap (λ t. x ∷ t) (append_nil xs)

pub wire_items_lem :
    (p : Plan) (ds : List IrData)
    → All IsItem ds
    → IsReady p
    → IsReady (wire_items p ds) × (fetched (wire_items p ds) ≡ fetched p)
unfolding wire_items
wire_items_lem p [] h r = (r, refl)
wire_items_lem p (d ∷ ds) ((plain, e), hs) r =
    let (ready, same) =
      wire_items_lem (node (fresh_node d) (cons p nil)) ds hs
        (plain, fed_alone d.op_info p, (r, tt)) in
    (ready, same ∙ rw e (append_nil (fetched p)))

abbrev pub IsThere : Plan → Type 0
IsThere null = ⊥
IsThere (node d cs) = Unit

pub wire_items-IsThere : (p : Plan) (ds : List IrData) → IsThere p → IsThere (wire_items p ds)
unfolding wire_items
wire_items-IsThere p [] h = h
wire_items-IsThere p (d ∷ ds) h = wire_items-IsThere (node (fresh_node d) (cons p nil)) ds tt

abbrev pub AllThere : Plans → Type 0
AllThere nil = Unit
AllThere (cons p ps) = IsThere p × AllThere ps

-- A result that fetches the given tables.
abbrev pub Fetches : Option Plan → List Text → Type 0
Fetches r tables = (q : Plan) × (r ≡ some q) × IsThere q × IsReady q × (fetched q ≡ tables)

pub take_over_lem :
    (d : NodeData) (q : Plan) → IsThere q → IsReady q → Fetches (take_over d q) (fetched q)
unfolding take_over
take_over_lem d null h r = absurd h
take_over_lem d (node e es) h r = (_, refl, tt, r, refl)

pub wired_agg_lem :
    (d : NodeData) (a : AbstractAgg) (p : Plan) (tables : List Text)
    → MappingIsSound a.agg_mapping
    → IsThere p
    → IsReady p
    → fetched p ≡ tables
    → Fetches (wired_agg d a (cons p nil)) tables
unfolding wired_agg
wired_agg_lem d a p tables h t r e =
    let (items, ei, all_items) = agg_items_lem a h in
    let (ready, same) = wire_items_lem p items all_items r in
    let (q, eq, tq, rq, fq) =
      take_over_lem d (wire_items p items) (wire_items-IsThere p items t) ready in
    (q, rw (wired_agg, ei) eq, tq, rq, fq ∙ (same ∙ e))

pub filter_chain_lem :
    (basetable : Text) (fs : List IrData)
    → All IsItem fs
    → IsReady (filter_chain fs (fetch_of basetable))
      × (fetched (filter_chain fs (fetch_of basetable)) ≡ basetable ∷ [])
unfolding filter_chain fetch_of FetchView.create make_table make_column
filter_chain_lem basetable [] h = ((((refl, refl), tt), tt, tt), refl)
filter_chain_lem basetable (f ∷ fs) ((plain, e), hs) =
    let (ready, same) = filter_chain_lem basetable fs hs in
    let rest = filter_chain fs (fetch_of basetable) in
    ((plain, fed_alone f.op_info rest, (ready, tt)), rw e (append_nil (fetched rest) ∙ same))

pub source_node_lem :
    (d : NodeData) (basetable : Text) (fs : List IrData)
    → All IsItem fs
    → Fetches (some (source_node d fs (fetch_of basetable))) (basetable ∷ [])
unfolding source_node fetch_of FetchView.create make_table make_column
source_node_lem d basetable [] h = (_, refl, tt, (((refl, refl), tt), tt, tt), refl)
source_node_lem d basetable (f ∷ fs) ((plain, e), hs) =
    let (ready, same) = filter_chain_lem basetable fs hs in
    let rest = filter_chain fs (fetch_of basetable) in
    (
      _,
      refl,
      tt,
      (plain, fed_alone f.op_info rest, (ready, tt)),
      rw e (append_nil (fetched rest) ∙ same),
    )

pub orders_lem :
    (names aliases : List Text) (asc : List Bool)
    → length names ≤ length aliases
    → length names ≤ length asc
    → (os : List OrderDescription) × (orders names aliases asc ≡ some os)
unfolding orders
orders_lem [] aliases asc h k = (_, refl)
orders_lem (n ∷ ns) [] asc h k = absurd (omega arith)
orders_lem (n ∷ ns) (a ∷ aliases) [] h k = absurd (omega arith)
orders_lem (n ∷ ns) (a ∷ aliases) (b ∷ asc) h k =
    let (os, e) = orders_lem ns aliases asc (omega arith) (omega arith) in
    (
      record { column = sort_column n a; order_type = b; null_ordering = false } ∷ os,
      rw (orders, e) refl,
    )

module _ (parse_condition : Text → Option ParsedCondition) where
  filter_of-IsItem : (basetable : Text) (c : ParsedCondition) → IsItem (filter_of basetable c)
  unfolding filter_of FilterView.create
  filter_of-IsItem basetable c = (((omega arith, omega arith, refl), tt), refl)

  pub filters_of_lem :
      (basetable : Text) (texts : List Text)
      → All (λ f. (c : ParsedCondition) × (parse_condition f ≡ some c)) texts
      → (fs : List IrData) × (filters_of parse_condition basetable texts ≡ some fs) × All IsItem fs
  unfolding filters_of
  filters_of_lem basetable [] h = ([], refl, tt)
  filters_of_lem basetable (f ∷ fs) ((c, e), hs) =
      let (items, es, all_items) = filters_of_lem basetable fs hs in
      (
        filter_of basetable c ∷ items,
        rw (filters_of, e, es) refl,
        (filter_of-IsItem basetable c, all_items),
      )
