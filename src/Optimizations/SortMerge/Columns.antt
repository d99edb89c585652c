-- ===== src/Optimizations/SortMerge/Columns.antt =====
-- Merging a sort into a group changes the order of the grouping columns, and not their set.
use db_query_optimizer.Common.{
  Bool, true, ◌||◌, List, [], ◌∷◌, ◌++◌, all, keep_if, ◌≡◌, refl, ◌∙◌, arith,
}
use db_query_optimizer.Base.{TableColumn, column_lt}
use db_query_optimizer.Base.Sets.{contains, equivalent, contains-insert_all}
use db_query_optimizer.Base.Order.{column_lt-IsStrictWeak}
use db_query_optimizer.Ir.{IrData, GroupOp, SortOp}
use db_query_optimizer.Optimizations.SortMerge.{column_set, is_subset, remaining_cols, merged_group}

-- A column is in the list, as the sets compare columns.
abbrev pub Has : TableColumn → List TableColumn → Type 0
Has c cols = contains column_lt c cols ≡ true

contains-column_set :
    (c : TableColumn) (cols : List TableColumn)
    → contains column_lt c (column_set cols) ≡ contains column_lt c cols
unfolding column_set contains
contains-column_set c cols =
    ground (arith, contains-insert_all column_lt column_lt-IsStrictWeak c cols [])

contains-append :
    (c : TableColumn) (xs ys : List TableColumn)
    → contains column_lt c (xs ++ ys) ≡ contains column_lt c xs || contains column_lt c ys
unfolding contains
contains-append c [] ys = refl
contains-append c (x ∷ xs) ys = ground (arith, contains-append c xs ys)

-- Columns that are one for a set are held by the same lists.
contains_respects :
    (c d : TableColumn) (xs : List TableColumn)
    → equivalent column_lt c d ≡ true
    → contains column_lt d xs ≡ true
    → contains column_lt c xs ≡ true
unfolding contains
contains_respects c d [] e h = cc
contains_respects c d (x ∷ xs) e h =
    ground (arith, contains_respects c d xs e, column_lt-IsStrictWeak.equivalent_trans c d x e)

contains-remaining :
    (c : TableColumn) (sort group : List TableColumn)
    → contains column_lt c (remaining_cols sort group) ≡ true
    → contains column_lt c group ≡ true
unfolding contains remaining_cols keep_if
contains-remaining c sort [] h = h
contains-remaining c sort (g ∷ gs) h = ground (arith, contains-remaining c sort gs)

remaining_or_sorted :
    (c : TableColumn) (sort group : List TableColumn)
    → contains column_lt c group ≡ true
    → contains column_lt c sort || contains column_lt c (remaining_cols sort group) ≡ true
unfolding contains remaining_cols keep_if
remaining_or_sorted c sort [] h = cc
remaining_or_sorted c sort (g ∷ gs) h =
    ground
      (arith, remaining_or_sorted c sort gs, contains-column_set g sort, contains_respects c g sort)

subset_sound :
    (c : TableColumn) (sort group : List TableColumn)
    → is_subset sort group ≡ true
    → contains column_lt c sort ≡ true
    → contains column_lt c group ≡ true
unfolding is_subset all contains
subset_sound c [] group h k = cc
subset_sound c (s ∷ sort) group h k =
    ground
      (arith, subset_sound c sort group, contains-column_set s group, contains_respects c s group)

Bool_iff : (a b : Bool) → (a ≡ true → b ≡ true) → (b ≡ true → a ≡ true) → a ≡ b
Bool_iff a b f g = ground arith

-- The group that took a sort over groups by the same set of columns as before.
pub merged_group-same_columns :
    (sort_data : IrData) (sort : SortOp) (group_data : IrData) (group : GroupOp)
    → is_subset sort_data.input_columns group_data.input_columns ≡ true
    → (c : TableColumn)
    → contains column_lt c (merged_group sort_data sort group_data group).input_columns
      ≡ contains column_lt c group_data.input_columns
unfolding merged_group
merged_group-same_columns sort_data sort group_data group h c =
    Bool_iff _ _
      (λ k. ground (
        arith,
        contains-append c sort_data.input_columns
            (remaining_cols sort_data.input_columns group_data.input_columns),
        subset_sound c sort_data.input_columns group_data.input_columns h,
        contains-remaining c sort_data.input_columns group_data.input_columns,
      ))
      (λ k.
        contains-append c sort_data.input_columns _
        ∙ remaining_or_sorted c sort_data.input_columns group_data.input_columns k)
