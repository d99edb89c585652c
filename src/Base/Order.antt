-- ===== src/Base/Order.antt =====
-- The comparison operators of `Table` and `TableColumn`, and what the sets and maps that are keyed
-- by them take for one element.
use db_query_optimizer.Common.{Bool, true, false, ◌≡◌, ◌↔◌, ◌≢◌, refl, arith}
use db_query_optimizer.Common.Text.{text_eq, text_lt, text_eq_iff}
use db_query_optimizer.Base.{
  Table, TableColumn, table_lt, table_eq, column_lt, column_eq, option_eq, option_lt, bool_lt,
}
use db_query_optimizer.Base.Lex.{lex, lex_irrefl, lex_trans, lex_none, text-IsTotal, option-IsTotal}
use db_query_optimizer.Base.Sets.{equivalent, IsStrictWeak}

-- The operators as chains of keys.
column_lt-lex :
    (a b : TableColumn)
    → column_lt a b
      ≡ lex text_eq text_lt a.table.name b.table.name
          (lex text_eq text_lt a.column_name b.column_name false)
unfolding column_lt
column_lt-lex a b = refl

abbrev alias_rest : Table → Table → Bool
alias_rest a b = lex option_eq option_lt a.alias b.alias (bool_lt a.is_virtual b.is_virtual)

abbrev name_rest : Table → Table → Bool
name_rest a b = lex text_eq text_lt a.name b.name (alias_rest a b)

table_lt-lex : (a b : Table) → table_lt a b ≡ lex text_eq text_lt a.schema b.schema (name_rest a b)
unfolding table_lt
table_lt-lex a b = refl

-- Two columns are one for a set exactly when their table names and their column names agree:
-- the tables' aliases and schemas do not count.
pub column_equivalent_iff :
    (a b : TableColumn)
    → (equivalent column_lt a b ≡ true)
      ↔ ((a.table.name ≡ b.table.name) × (a.column_name ≡ b.column_name))
unfolding equivalent
column_equivalent_iff a b = ground (
  arith,
  column_lt-lex a b,
  column_lt-lex b a,
  lex_none text-IsTotal a.table.name b.table.name
      (lex text_eq text_lt a.column_name b.column_name false)
      (lex text_eq text_lt b.column_name a.column_name false),
  lex_none text-IsTotal a.column_name b.column_name false false,
)

-- `TableColumn::operator<` is a strict weak ordering.
pub column_lt-IsStrictWeak : IsStrictWeak column_lt
column_lt-IsStrictWeak = record { irreflexive = irr; transitive = tra; equivalent_trans = etr }
  where
    irr : (a : TableColumn) → column_lt a a ≡ false
    irr a =
        unfold column_lt in
        lex_irrefl text-IsTotal a.table.name _ (lex_irrefl text-IsTotal a.column_name false refl)

    tra : (a b c : TableColumn) → column_lt a b ≡ true → column_lt b c ≡ true → column_lt a c ≡ true
    tra a b c =
        unfold column_lt in
        lex_trans text-IsTotal a.table.name b.table.name c.table.name _ _ _ (
          lex_trans text-IsTotal a.column_name b.column_name c.column_name false false false
            (λ h k. h))

    etr :
        (a b c : TableColumn)
        → equivalent column_lt a b ≡ true
        → equivalent column_lt b c ≡ true
        → equivalent column_lt a c ≡ true
    etr a b c h k =
        ground
          (arith, column_equivalent_iff a b, column_equivalent_iff b c, column_equivalent_iff a c)

-- Two tables are one for a set exactly when all four of their fields agree.
pub table_equivalent_iff : (a b : Table) → (equivalent table_lt a b ≡ true) ↔ (a ≡ b)
unfolding equivalent bool_lt
table_equivalent_iff a b = ground (
  arith,
  table_lt-lex a b,
  table_lt-lex b a,
  lex_none text-IsTotal a.schema b.schema (name_rest a b) (name_rest b a),
  lex_none text-IsTotal a.name b.name (alias_rest a b) (alias_rest b a),
  lex_none option-IsTotal a.alias b.alias (bool_lt a.is_virtual b.is_virtual)
      (bool_lt b.is_virtual a.is_virtual),
)

-- `Table::operator<` is a strict weak ordering.
pub table_lt-IsStrictWeak : IsStrictWeak table_lt
table_lt-IsStrictWeak = record { irreflexive = irr; transitive = tra; equivalent_trans = etr }
  where
    irr : (a : Table) → table_lt a a ≡ false
    irr a =
        unfold table_lt bool_lt in
        lex_irrefl text-IsTotal a.schema _
          (lex_irrefl text-IsTotal a.name _ (lex_irrefl option-IsTotal a.alias _ (ground arith)))

    tra : (a b c : Table) → table_lt a b ≡ true → table_lt b c ≡ true → table_lt a c ≡ true
    tra a b c =
        unfold table_lt bool_lt in
        lex_trans text-IsTotal a.schema b.schema c.schema _ _ _ (
          lex_trans text-IsTotal a.name b.name c.name _ _ _
            (lex_trans option-IsTotal a.alias b.alias c.alias _ _ _ (λ h k. ground arith)))

    etr :
        (a b c : Table)
        → equivalent table_lt a b ≡ true
        → equivalent table_lt b c ≡ true
        → equivalent table_lt a c ≡ true
    etr a b c h k =
        ground (arith, table_equivalent_iff a b, table_equivalent_iff b c, table_equivalent_iff a c)

-- A set or map keyed by columns takes two columns of one name for one key whenever their tables
-- have one name, although `==` tells them apart when the tables' aliases differ.
pub key_merges_aliases :
    (a b : TableColumn)
    → a.table.name ≡ b.table.name
    → a.column_name ≡ b.column_name
    → a.table.alias ≢ b.table.alias
    → (equivalent column_lt a b ≡ true) × (column_eq a b ≡ false)
unfolding column_eq table_eq
key_merges_aliases a b h k d = (
  (column_equivalent_iff a b).1 (h, k),
  ground (arith, option-IsTotal.eq_iff a.table.alias b.table.alias),
)

-- `==` on columns is finer than a set's notion: equal columns are always one for a set.
pub column_eq-equivalent :
    (a b : TableColumn) → column_eq a b ≡ true → equivalent column_lt a b ≡ true
unfolding column_eq table_eq
column_eq-equivalent a b h =
    (column_equivalent_iff a b).1 (
      ground
        (arith, text_eq_iff a.table.name b.table.name, text_eq_iff a.column_name b.column_name))
