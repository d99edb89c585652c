-- ===== src/Catalog/Laws.antt =====
-- The catalog's answers: keys, types and table names agree, and the letter case of the names given to
-- `isUnique` and `getSSBColumnType` does not count.
use db_query_optimizer.Common.{
  ℕ, Bool, true, List, [], ◌∷◌, if◌then◌else◌, ◌≡◌, inl, inr, refl, arith, all, All, Bool-cases,
}
use db_query_optimizer.Common.Text.{
  Text, bytes, text_eq, text_eq_sound, contains_text, one_of, to_lower, lower_byte,
}
use db_query_optimizer.Base.{type_integer}
use db_query_optimizer.Catalog.{
  get_table_name, resolve_table, type_in_table, get_ssb_column_type, unique_in_table, is_unique,
  lineorder_columns, dates_columns, part_columns, supplier_columns, customer_columns,
}

lower_byte_idem : (c : ℕ) → lower_byte (lower_byte c) ≡ lower_byte c
unfolding lower_byte
lower_byte_idem c = ground arith

pub to_lower_idem : (s : Text) → to_lower (to_lower s) ≡ to_lower s
unfolding to_lower
to_lower_idem [] = refl
to_lower_idem (c ∷ s) = cc (lower_byte_idem c, to_lower_idem s)

-- The letter case of the table's and the column's name does not change what `isUnique` and
-- `getSSBColumnType` answer (it may change what `getTableName` answers).
pub case_insensitive :
    (t c : Text)
    → (is_unique (to_lower t) (to_lower c) ≡ is_unique t c)
      × (get_ssb_column_type (to_lower t) (to_lower c) ≡ get_ssb_column_type t c)
unfolding is_unique get_ssb_column_type
case_insensitive t c = (simp to_lower_idem, simp to_lower_idem)

-- What holds of each listed name holds of a name in the list.
pub one_of-all :
    (P : Text → Bool) (ts : List Text) (c : Text)
    → all P ts ≡ true
    → one_of ts c ≡ true
    → P c ≡ true
unfolding one_of all
one_of-all P [] c h k = cc
one_of-all P (t ∷ ts) c h k = elim (Bool-cases (text_eq c t)) [
  | inl e ↦ rw (text_eq_sound c t e) (ground arith)
  | inr ne ↦ one_of-all P ts c (ground arith) (ground arith)
]

abbrev key_columns : List Text
key_columns = bytes "c_custkey" ∷ bytes "p_partkey" ∷ bytes "s_suppkey" ∷ bytes "d_datekey" ∷ []

has_key : Text → Bool
has_key c = contains_text c (bytes "key")

keys_have_key : all has_key key_columns ≡ true
unfolding all has_key contains_text
keys_have_key = refl

unique_is_key : (t c : Text) → unique_in_table t c ≡ true → one_of key_columns c ≡ true
unfolding unique_in_table one_of
unique_is_key t c h = ground arith

key_type : (t c : Text) → has_key c ≡ true → type_in_table t c ≡ type_integer
unfolding type_in_table has_key
key_type t c h = ground arith

-- A column that the catalog calls unique is an integer column, under the same table name.
pub unique_column_type :
    (t c : Text) → is_unique t c ≡ true → get_ssb_column_type t c ≡ type_integer
unfolding is_unique get_ssb_column_type
unique_column_type t c h =
    key_type _ (to_lower c)
      (one_of-all has_key key_columns (to_lower c) keys_have_key (unique_is_key _ (to_lower c) h))

abbrev table_names : List Text
table_names =
    bytes "lineorder"
    ∷ bytes "dates"
    ∷ bytes "part"
    ∷ bytes "supplier"
    ∷ bytes "customer"
    ∷ bytes "Default"
    ∷ []

-- What holds of each table's name holds of the name that is found for a column.
get_table_name_all : (P : Text → Type 0) (c : Text) → All P table_names → P (get_table_name c)
unfolding get_table_name
get_table_name_all P c h = elim (Bool-cases (one_of lineorder_columns c)) [
  | inl e ↦ rw e h.0
  | inr n1 ↦ elim (Bool-cases (one_of dates_columns c)) [
    | inl e ↦ rw (n1, e) h.1.0
    | inr n2 ↦ elim (Bool-cases (one_of part_columns c)) [
      | inl e ↦ rw (n1, n2, e) h.1.1.0
      | inr n3 ↦ elim (Bool-cases (one_of supplier_columns c)) [
        | inl e ↦ rw (n1, n2, n3, e) h.1.1.1.0
        | inr n4 ↦ elim (Bool-cases (one_of customer_columns c)) [
          | inl e ↦ rw (n1, n2, n3, n4, e) h.1.1.1.1.0
          | inr n5 ↦ rw (n1, n2, n3, n4, n5) h.1.1.1.1.1.0
        ]
      ]
    ]
  ]
]

-- The catalog answers for an empty table name as for the name that it finds for the column.
abbrev SameAnswers : Text → Text → Text → Type 0
SameAnswers t u c =
    (is_unique t c ≡ is_unique u c) × (get_ssb_column_type t c ≡ get_ssb_column_type u c)

abbrev SameInTable : Text → Text → Type 0
SameInTable c n =
    (unique_in_table (if text_eq n (bytes "dates") then bytes "date" else n) c
      ≡ unique_in_table (resolve_table (to_lower n) c) c)
    × (type_in_table (if text_eq n (bytes "dates") then bytes "date" else n) c
        ≡ type_in_table (resolve_table (to_lower n) c) c)

pub empty_table_name : (c : Text) → SameAnswers [] (get_table_name (to_lower c)) c
unfolding is_unique get_ssb_column_type resolve_table unique_in_table type_in_table to_lower text_eq
empty_table_name c = get_table_name_all (SameInTable (to_lower c)) (to_lower c) (
  (refl, refl),
  ((refl, refl), ((refl, refl), ((refl, refl), ((refl, refl), ((refl, refl), tt))))),
)
