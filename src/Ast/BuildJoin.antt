-- ===== src/Ast/BuildJoin.antt =====
-- `buildJoin`: where each condition links one new table to those before it, the result is a
-- left-deep chain of joins in which every join finds its left column on its left side.
use db_query_optimizer.Common.{
  true, false, ◌||◌, not, List, [], ◌∷◌, ◌≡◌, refl, sym, ap, ◌∙◌, Bool-cases, inl, inr, arith,
}
use db_query_optimizer.Common.Text.{Text, text_eq, text_eq_sound, text_eq_refl, one_of}
use db_query_optimizer.Ast.{
  AstNode, WhereClauseNode, is_table_in_ast, base_table, inner_join, join_more, first_join,
  build_join,
}

-- Each condition links exactly one table to the tables seen before.
abbrev pub LinksOneTable : List Text → List WhereClauseNode → Type 0
LinksOneTable seen [] = Unit
LinksOneTable seen (e ∷ es) =
    (one_of seen e.table2 ≡ not (one_of seen e.table))
    × LinksOneTable (e.table ∷ e.table2 ∷ seen) es

-- The tables of a list of conditions.
unfoldable pub tables_of : List WhereClauseNode → List Text → List Text
tables_of [] seen = seen
tables_of (e ∷ es) seen = tables_of es (e.table ∷ e.table2 ∷ seen)

-- The conditions, the last one first.
unfoldable pub newest_first : List WhereClauseNode → List WhereClauseNode → List WhereClauseNode
newest_first [] done = done
newest_first (e ∷ es) done = newest_first es (e ∷ done)

-- The two columns that a condition compares, each after its table, in either order.
pub data Sides (e : WhereClauseNode) : Text → Text → Text → Text → Type 0 where
  as_written : Sides e e.table e.column e.table2 e.column2
  swapped : Sides e e.table2 e.column2 e.table e.column

-- A chain of joins, one for each condition, the last condition's outermost: its columns are those
-- that the condition compares, each with its table; on its right is a base table that the left side
-- does not have, and the table of the left column is on the left side.
pub data IsLeftDeep : List WhereClauseNode → AstNode → Type 0 where
  single : (name : Text) → IsLeftDeep [] (base_table name)
  joined :
      {left : AstNode} {done : List WhereClauseNode} (e : WhereClauseNode) (t1 c1 t2 c2 : Text)
      → Sides e t1 c1 t2 c2
      → IsLeftDeep done left
      → is_table_in_ast left t1 ≡ true
      → is_table_in_ast left t2 ≡ false
      → IsLeftDeep (e ∷ done) (inner_join t1 c1 t2 c2 left (base_table t2))

in_base : (name t : Text) → is_table_in_ast (base_table name) t ≡ text_eq name t
unfolding is_table_in_ast base_table
in_base name t = refl

in_join :
    (t1 c1 t2 c2 : Text) (left : AstNode) (t : Text)
    → is_table_in_ast (inner_join t1 c1 t2 c2 left (base_table t2)) t
      ≡ is_table_in_ast left t || text_eq t2 t
unfolding is_table_in_ast inner_join base_table
in_join t1 c1 t2 c2 left t = refl

-- `curr` is a chain for the conditions that are done, over the tables seen.
record Chain (done : List WhereClauseNode) (seen : List Text) (curr : AstNode) : Type 0 where
  deep : IsLeftDeep done curr
  covers : (t : Text) → is_table_in_ast curr t ≡ one_of seen t

-- Adding a join whose left table is there and whose right table is new.
extend :
    {done : List WhereClauseNode} {seen seen' : List Text} {curr : AstNode} (e : WhereClauseNode)
    (t1 c1 t2 c2 : Text)
    → Sides e t1 c1 t2 c2
    → Chain done seen curr
    → one_of seen t1 ≡ true
    → one_of seen t2 ≡ false
    → ((t : Text) → one_of seen' t ≡ one_of seen t || text_eq t2 t)
    → Chain (e ∷ done) seen' (inner_join t1 c1 t2 c2 curr (base_table t2))
extend e t1 c1 t2 c2 s c h k same = record {
  deep = joined e t1 c1 t2 c2 s c.deep (c.covers t1 ∙ h) (c.covers t2 ∙ k);
  covers = λ t. in_join t1 c1 t2 c2 _ t ∙ ap (λ b. b || text_eq t2 t) (c.covers t) ∙ sym (same t);
}

text_eq_comm : (a b : Text) → text_eq a b ≡ text_eq b a
unfolding text_eq
text_eq_comm [] [] = refl
text_eq_comm [] (y ∷ b) = refl
text_eq_comm (x ∷ a) [] = refl
text_eq_comm (x ∷ a) (y ∷ b) = ground (arith, text_eq_comm a b)

-- A table that was seen adds nothing.
seen_before :
    (seen : List Text) (old t : Text)
    → one_of seen old ≡ true
    → text_eq t old || one_of seen t ≡ one_of seen t
seen_before seen old t h = elim (Bool-cases (text_eq t old)) [
  | inl e ↦ rw (text_eq_sound t old e, h) (ground arith)
  | inr e ↦ rw e refl
]

add_right :
    (seen : List Text) (t1 t2 t : Text)
    → one_of seen t1 ≡ true
    → one_of (t1 ∷ t2 ∷ seen) t ≡ one_of seen t || text_eq t2 t
unfolding one_of
add_right seen t1 t2 t h = ground (arith, seen_before seen t1 t h, text_eq_comm t t2)

add_left :
    (seen : List Text) (t1 t2 t : Text)
    → one_of seen t2 ≡ true
    → one_of (t1 ∷ t2 ∷ seen) t ≡ one_of seen t || text_eq t1 t
unfolding one_of
add_left seen t1 t2 t h = ground (arith, seen_before seen t2 t h, text_eq_comm t t1)

join_more-Chain :
    (es done : List WhereClauseNode) (seen : List Text) (curr : AstNode)
    → Chain done seen curr
    → LinksOneTable seen es
    → Chain (newest_first es done) (tables_of es seen) (join_more curr es)
unfolding join_more tables_of newest_first
join_more-Chain [] done seen curr c h = c
join_more-Chain (e ∷ es) done seen curr c (link, rest) =
    elim (Bool-cases (is_table_in_ast curr e.table2)) [
      | inl old ↦
          let old2 : one_of seen e.table2 ≡ true = sym (c.covers e.table2) ∙ old in
          let new1 : one_of seen e.table ≡ false = ground arith in
          rw old (
            join_more-Chain es (e ∷ done) (e.table ∷ e.table2 ∷ seen) _
              (extend e e.table2 e.column2 e.table e.column swapped c old2 new1
                (λ t. add_left seen e.table e.table2 t old2))
              rest)
      | inr new ↦
          let new2 : one_of seen e.table2 ≡ false = sym (c.covers e.table2) ∙ new in
          let old1 : one_of seen e.table ≡ true = ground arith in
          rw new (
            join_more-Chain es (e ∷ done) (e.table ∷ e.table2 ∷ seen) _
              (extend e e.table e.column e.table2 e.column2 as_written c old1 new2
                (λ t. add_right seen e.table e.table2 t old1))
              rest)
    ]

first_join-Chain :
    (e : WhereClauseNode)
    → text_eq e.table e.table2 ≡ false
    → Chain (e ∷ []) (e.table ∷ e.table2 ∷ []) (first_join e)
unfolding first_join one_of
first_join-Chain e two = record {
  deep =
      joined e e.table e.column e.table2 e.column2 as_written (single e.table)
        (in_base e.table e.table ∙ text_eq_refl e.table) (in_base e.table e.table2 ∙ two);
  covers = λ t.
      in_join e.table e.column e.table2 e.column2 _ t
      ∙ ground (arith, in_base e.table t, text_eq_comm t e.table, text_eq_comm t e.table2);
}

-- Where the first condition names two tables, and each later one links one new table to those
-- before it, the join is a left-deep chain with one join for each condition, the last one outermost.
-- The columns of each join are the two that its condition compares, each with its own table: the
-- left one is of a table on the join's left side, and the right one of the base table on its right, which
-- is new. The chain holds the tables of the conditions and no other.
pub build_join-IsLeftDeep :
    (e : WhereClauseNode) (es : List WhereClauseNode)
    → text_eq e.table e.table2 ≡ false
    → LinksOneTable (e.table ∷ e.table2 ∷ []) es
    → IsLeftDeep (newest_first (e ∷ es) []) (build_join (e ∷ es))
      × ((t : Text) → is_table_in_ast (build_join (e ∷ es)) t ≡ one_of (tables_of (e ∷ es) []) t)
unfolding build_join tables_of newest_first
build_join-IsLeftDeep e es two links =
    let c =
      join_more-Chain es (e ∷ []) (e.table ∷ e.table2 ∷ []) (first_join e) (first_join-Chain e two)
        links in
    (c.deep, c.covers)
