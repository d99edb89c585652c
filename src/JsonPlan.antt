-- ===== src/JsonPlan.antt =====
-- src/ir/json_to_abstract.cpp: from the raw plan of the database to an abstract plan. A child is
-- never null in the source where it is looked at; a null one is passed over here.
pub mod Scans
use db_query_optimizer.Common.{
  ℕ, Bool, true, false, Option, none, some, List, [], ◌∷◌, if◌then◌else◌,
}
use db_query_optimizer.Common.Text.{Text, bytes, text_eq, one_of}
use db_query_optimizer.Ir.{
  AbstractData, empty, source, join, agg, sort, result, PlanParams, JsonRawData, NodeData, Plan,
  Plans, null, node, nil, cons,
}

abbrev pub hash_types : List Text
hash_types = bytes "Hash" ∷ []

abbrev pub gather_types : List Text
gather_types = bytes "Gather" ∷ bytes "Gather Merge" ∷ []

abbrev pub join_types : List Text
join_types = bytes "Nested Loop" ∷ bytes "Hash Join" ∷ []

abbrev pub agg_types : List Text
agg_types = bytes "Aggregate" ∷ []

abbrev pub bitmap_types : List Text
bitmap_types = bytes "Bitmap Heap Scan" ∷ bytes "Bitmap Index Scan" ∷ []

abbrev pub scan_types : List Text
scan_types = bytes "Index Scan" ∷ bytes "Seq Scan" ∷ []

abbrev pub sort_types : List Text
sort_types = bytes "Incremental Sort" ∷ bytes "Sort" ∷ []

-- `isNodeType`
unfoldable pub is_node_type : NodeData → List Text → Bool
unfolding one_of
is_node_type d types = elim d.raw_json [ none ↦ false | some raw ↦ one_of types raw.node_type ]

-- `convertToAbstract`
unfoldable pub convert_to_abstract : JsonRawData → AbstractData
unfolding one_of text_eq
convert_to_abstract raw =
    if one_of join_types raw.node_type
    then join (record { left_table = []; right_table = []; condition = [] })
    else if one_of agg_types raw.node_type
    then agg (record { agg_type = []; agg_mapping = []; agg_alias = []; grouping_cols = [] })
    else if one_of sort_types raw.node_type
    then sort (record { column_names = []; aliases = []; asc = [] })
    else if one_of scan_types raw.node_type
    then source (record {
      basetable = elim raw.plan_params.base_table [ none ↦ [] | some t ↦ t.name ];
      filters = [];
    })
    else if one_of bitmap_types raw.node_type
    then source (record {
      basetable = elim raw.plan_params.base_table [ none ↦ [] | some t ↦ t.name ];
      filters = [];
    })
    else if text_eq raw.node_type (bytes "Limit")
    then result (record { output_cols = [] })
    else empty

-- `removeDeepAggregate` and `removeDeepSort`: down the first children to the first node of the
-- types, which its only child replaces.
unfoldable pub remove_deep : List Text → Plan → Plan
unfolding is_node_type
remove_deep types null = null
remove_deep types (node d nil) = node d nil
remove_deep types (node d (cons c nil)) =
    let deeper = remove_deep types c in if is_node_type d types then c else node d (cons deeper nil)
remove_deep types (node d (cons c (cons e rest))) =
    let deeper = remove_deep types c in
    if is_node_type d types
    then node d (cons c (cons e rest))
    else node d (cons deeper (cons e rest))

-- The filter and the index that a bitmap scan takes from the one below it.
unfoldable pub merge_bitmap : JsonRawData → JsonRawData → JsonRawData
merge_bitmap raw below = record raw {
  plan_params = record raw.plan_params {
    filter_predicate = elim raw.plan_params.filter_predicate [
      | none ↦ below.plan_params.filter_predicate
      | some f ↦ some f
    ];
    index = elim raw.plan_params.index [ [] ↦ below.plan_params.index | c ∷ s ↦ c ∷ s ];
  };
}

-- `std::holds_alternative` of `AbstractAgg` and `AbstractSort`
unfoldable pub holds_agg : AbstractData → Bool
holds_agg a = elim a [ agg _ ↦ true | _ ↦ false ]

unfoldable pub holds_sort : AbstractData → Bool
holds_sort a = elim a [ sort _ ↦ true | _ ↦ false ]

-- The swap of an aggregation and the sort below it.
unfoldable pub swap_agg_sort : NodeData → Plans → Plan
unfolding holds_agg holds_sort
swap_agg_sort d nil = node d nil
swap_agg_sort d (cons null rest) = node d (cons null rest)
swap_agg_sort d (cons (node e es) rest) =
    if holds_agg d.abstract_data
    then (if holds_sort e.abstract_data
        then node (record d { abstract_data = e.abstract_data; raw_json = e.raw_json })
            (cons (node (record e { abstract_data = d.abstract_data; raw_json = d.raw_json }) es)
              rest)
        else node d (cons (node e es) rest))
    else node d (cons (node e es) rest)

-- The end of `pruneTree`: the abstract data, and the swap.
unfoldable pub abstracted : JsonRawData → NodeData → Plans → Plan
unfolding convert_to_abstract swap_agg_sort
abstracted raw d cs =
    swap_agg_sort (record d { raw_json = some raw; abstract_data = convert_to_abstract raw }) cs

-- The collapse of a bitmap scan with the one below it.
unfoldable pub collapse_bitmap : JsonRawData → NodeData → Plan → Plan
unfolding is_node_type merge_bitmap abstracted
collapse_bitmap raw d null = abstracted raw d (cons null nil)
collapse_bitmap raw d (node e es) =
    if is_node_type e bitmap_types
    then elim e.raw_json [
      | none ↦ abstracted raw d es
      | some below ↦ abstracted (merge_bitmap raw below) d es
    ]
    else abstracted raw d (cons (node e es) nil)

-- A node with one child, by its type: the types of the tests have nothing in common.
unfoldable pub prune_single : JsonRawData → NodeData → Plan → Plan
unfolding one_of remove_deep abstracted collapse_bitmap
prune_single raw d c =
    if one_of hash_types raw.node_type
    then c
    else if one_of gather_types raw.node_type
    then remove_deep agg_types c
    else if one_of sort_types raw.node_type
    then abstracted raw d (cons (remove_deep sort_types c) nil)
    else if one_of bitmap_types raw.node_type
    then collapse_bitmap raw d c
    else abstracted raw d (cons c nil)

-- A node after its children.
unfoldable pub prune_node : NodeData → Plans → Plan
unfolding prune_single abstracted
prune_node d cs = elim d.raw_json [
  | none ↦ node d cs
  | some raw ↦ elim cs [
    | nil ↦ abstracted raw d nil
    | cons c rest ↦ elim rest [
      | nil ↦ prune_single raw d c
      | cons e more ↦ abstracted raw d (cons c (cons e more))
    ]
  ]
]

unfoldable mutual
  unfolding prune_node

  pub prune_tree : Plan → Plan
  prune_tree null = null
  prune_tree (node d cs) = prune_node d (prune_trees cs)

  pub prune_trees : Plans → Plans
  prune_trees nil = nil
  prune_trees (cons p ps) = cons (prune_tree p) (prune_trees ps)
