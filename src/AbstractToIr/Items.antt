-- ===== src/AbstractToIr/Items.antt =====
-- The items of an aggregation: a map, an aggregation and a group.
use db_query_optimizer.Common.{
  true, Option, none, some, List, [], ◌∷◌, ◌++◌, length, length-replicate, All, ◌≡◌, refl, arith,
  Option-cases, Bool-cases, inl, inr,
}
use db_query_optimizer.Common.Text.{Text}
use db_query_optimizer.Base.{TableColumn, AggFunc}
use db_query_optimizer.Ir.{IrData, AbstractAgg}
use db_query_optimizer.Ir.AggView
use db_query_optimizer.Ir.GroupView
use db_query_optimizer.Ir.MapView
use db_query_optimizer.Optimizations.SortMerge.Keeps.{IsPlain}
use db_query_optimizer.TransformHelpers.{Mapping, map_string_to_agg_func, contains_arith_map_op}
use db_query_optimizer.AbstractToIr.{
  checked_mapping, map_of, map_item, map_items, func_items, group_items, group_columns, agg_input,
  agg_of, agg_items,
}
use db_query_optimizer.AbstractToIr.Sound.{MappingIsSound, tables_here}

-- An item that stands above its only child, and fetches nothing.
abbrev pub IsItem : IrData → Type 0
IsItem d = IsPlain d × (tables_here d.op_info d.input_columns ≡ [])

map_of-IsItem : (m : Mapping) → IsItem (map_of m)
unfolding map_of MapView.create
map_of-IsItem m = (((omega arith, omega arith, refl), tt), refl)

agg_of-IsItem : (a : AbstractAgg) (c : TableColumn) (f : AggFunc) → IsItem (agg_of a c f)
unfolding agg_of AggView.create
agg_of-IsItem a c f = (((refl, refl), tt), refl)

map_items-IsItem : (m : Option Mapping) → All IsItem (map_items m)
unfolding map_items
map_items-IsItem none = tt
map_items-IsItem (some m) = (map_of-IsItem m, tt)

func_items-IsItem : (a : AbstractAgg) (c : TableColumn) → All IsItem (func_items a c)
unfolding func_items
func_items-IsItem a c = elim (Option-cases (map_string_to_agg_func a.agg_type)) [
  | inl n ↦ rw (func_items, n) tt
  | inr (f, n) ↦ rw (func_items, n) (agg_of-IsItem a c f, tt)
]

group_items-IsItem : (names : List Text) → All IsItem (group_items names)
unfolding group_items GroupView.create
group_items-IsItem [] = tt
group_items-IsItem (c ∷ cs) = (
  (((omega (arith, length-replicate (length (group_columns (c ∷ cs))) true), refl), refl), refl),
  tt,
)

pub All-append :
    {A : Type 0} (P : A → Type 0) (xs ys : List A) → All P xs → All P ys → All P (xs ++ ys)
All-append P [] ys h k = k
All-append P (x ∷ xs) ys (h, hs) k = (h, All-append P xs ys hs k)

map_item_lem :
    (mapping : Text) → MappingIsSound mapping → (m : Option Mapping) × (map_item mapping ≡ some m)
unfolding map_item checked_mapping
map_item_lem mapping h = elim (Bool-cases (contains_arith_map_op mapping)) [
  | inr n ↦ (none, rw (map_item, n) refl)
  | inl n ↦ let (m, e, v) = h n in (some m, rw (map_item, n, e) (rw (checked_mapping, v) refl))
]

pub agg_items_lem :
    (a : AbstractAgg)
    → MappingIsSound a.agg_mapping
    → (items : List IrData) × (agg_items a ≡ some items) × All IsItem items
unfolding agg_items
agg_items_lem a h =
    let (m, e) = map_item_lem a.agg_mapping h in
    let fs = func_items a (agg_input a.agg_mapping m) in
    (
      map_items m ++ (fs ++ group_items a.grouping_cols),
      rw (agg_items, e) refl,
      All-append IsItem (map_items m) (fs ++ group_items a.grouping_cols) (map_items-IsItem m) (
          All-append IsItem fs (group_items a.grouping_cols)
            (func_items-IsItem a (agg_input a.agg_mapping m)) (group_items-IsItem a.grouping_cols)),
    )
