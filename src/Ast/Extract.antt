-- ===== src/Ast/Extract.antt =====
-- `extractPredicate`: no condition is lost, none stays in the tree, and the two lists keep the order.
use db_query_optimizer.Common.{
  Bool, true, false, not, none, some, List, [], ◌∷◌, ◌++◌, if◌then◌else◌, ◌≡◌, refl, sym, ap, ◌∙◌,
  keep_if, Bool-cases, Option-cases, arith, inl, inr,
}
use mathlib.Core.List.{append_assoc, append-nil}
use db_query_optimizer.Ast.{
  AstNode, AstValue, WhereClauseNode, null, node, where_of, is_join_condition, extract_predicate,
}

-- The conditions of a tree: a node before its left side, the left side before the right.
unfoldable pub conditions : AstNode → List WhereClauseNode
conditions null = []
conditions (node v left right) =
    (elim (where_of v) [ none ↦ [] | some e ↦ e ∷ [] ] ++ conditions left) ++ conditions right

unfoldable pub is_predicate : WhereClauseNode → Bool
is_predicate e = not (is_join_condition e)

-- No condition stands in the tree.
abbrev pub HasNoCondition : AstNode → Type 0
HasNoCondition null = Unit
HasNoCondition (node v left right) =
    (where_of v ≡ none) × HasNoCondition left × HasNoCondition right

keep_yes :
    {A : Type 0} (p : A → Bool) (x : A) (xs : List A)
    → p x ≡ true
    → keep_if p (x ∷ xs) ≡ x ∷ keep_if p xs
unfolding keep_if
keep_yes p x xs h = ground arith

keep_no :
    {A : Type 0} (p : A → Bool) (x : A) (xs : List A)
    → p x ≡ false
    → keep_if p (x ∷ xs) ≡ keep_if p xs
unfolding keep_if
keep_no p x xs h = ground arith

keep_if-append :
    {A : Type 0} (p : A → Bool) (xs ys : List A)
    → keep_if p (xs ++ ys) ≡ keep_if p xs ++ keep_if p ys
unfolding keep_if
keep_if-append p [] ys = refl
keep_if-append p (x ∷ xs) ys = elim (Bool-cases (p x)) [
  | inl h ↦
      rw (keep_yes p x (xs ++ ys) h, keep_yes p x xs h) (ap (λ t. x ∷ t) (keep_if-append p xs ys))
  | inr h ↦ rw (keep_no p x (xs ++ ys) h, keep_no p x xs h) (keep_if-append p xs ys)
]

-- Two steps that each append what passes a test append what passes it of both.
appended :
    {A : Type 0} (p : A → Bool) (start xs ys : List A) {q s : List A}
    → q ≡ start ++ keep_if p xs
    → s ≡ q ++ keep_if p ys
    → s ≡ start ++ keep_if p (xs ++ ys)
appended p start xs ys h k =
    k
    ∙ ap (λ t. t ++ keep_if p ys) h
    ∙ append_assoc start (keep_if p xs) (keep_if p ys)
    ∙ ap (λ t. start ++ t) (sym (keep_if-append p xs ys))

-- Appending nothing.
same : {A : Type 0} (p : A → Bool) (xs : List A) → xs ≡ xs ++ keep_if p []
unfolding keep_if
same p xs = sym (append-nil xs)

-- The test that decides which list a condition goes to.
one_predicate :
    (e : WhereClauseNode) (p : List WhereClauseNode)
    → (if is_join_condition e then p else (p ++ e ∷ [])) ≡ p ++ keep_if is_predicate (e ∷ [])
unfolding keep_if is_predicate
one_predicate e p = elim (Bool-cases (is_join_condition e)) [
  | inl h ↦ rw (h, keep_no is_predicate e [] (ap not h)) (same is_predicate p)
  | inr h ↦ rw (h, keep_yes is_predicate e [] (ap not h)) refl
]

one_join_condition :
    (e : WhereClauseNode) (j : List WhereClauseNode)
    → (if is_join_condition e then (j ++ e ∷ []) else j) ≡ j ++ keep_if is_join_condition (e ∷ [])
unfolding keep_if
one_join_condition e j = elim (Bool-cases (is_join_condition e)) [
  | inl h ↦ rw (h, keep_yes is_join_condition e [] h) refl
  | inr h ↦ rw (h, keep_no is_join_condition e [] h) (same is_join_condition j)
]

-- One node, by what it holds.
extract_other :
    (v : AstValue) (l r : AstNode) (p j : List WhereClauseNode)
    → where_of v ≡ none
    → (extract_predicate (node v l r) p j ≡ (
        let el = extract_predicate l p j in
        let er = extract_predicate r el.predicate el.join_cond in
        record {
          root = node v el.root er.root;
          predicate = er.predicate;
          join_cond = er.join_cond;
        }))
      × (conditions (node v l r) ≡ conditions l ++ conditions r)
unfolding extract_predicate conditions
extract_other v l r p j h = (ground arith, ground arith)

extract_condition :
    (v : AstValue) (e : WhereClauseNode) (l r : AstNode) (p j : List WhereClauseNode)
    → where_of v ≡ some e
    → (extract_predicate (node v l r) p j ≡ (
        let el =
          extract_predicate l
            (if is_join_condition e then p else (p ++ e ∷ []))
            (if is_join_condition e then (j ++ e ∷ []) else j) in
        let er = extract_predicate r el.predicate el.join_cond in
        record { root = el.root; predicate = er.predicate; join_cond = er.join_cond }))
      × (conditions (node v l r) ≡ (e ∷ conditions l) ++ conditions r)
unfolding extract_predicate conditions
extract_condition v e l r p j h = (ground arith, ground arith)

predicates_lem :
    (t : AstNode) (p j : List WhereClauseNode)
    → (extract_predicate t p j).predicate ≡ p ++ keep_if is_predicate (conditions t)
unfolding extract_predicate conditions
predicates_lem null p j = same is_predicate p
predicates_lem (node v l r) p j = elim (Option-cases (where_of v)) [
  | inl h ↦
      let (step, cs) = extract_other v l r p j h in
      rw (step, cs)
        (appended is_predicate p (conditions l) (conditions r) (predicates_lem l p j)
          (predicates_lem r _ _))
  | inr (e, h) ↦
      let (step, cs) = extract_condition v e l r p j h in
      rw (step, cs)
        (appended is_predicate p (e ∷ conditions l) (conditions r)
          (appended is_predicate p (e ∷ []) (conditions l) (one_predicate e p)
            (predicates_lem l _ _))
          (predicates_lem r _ _))
]

join_conditions_lem :
    (t : AstNode) (p j : List WhereClauseNode)
    → (extract_predicate t p j).join_cond ≡ j ++ keep_if is_join_condition (conditions t)
unfolding extract_predicate conditions
join_conditions_lem null p j = same is_join_condition j
join_conditions_lem (node v l r) p j = elim (Option-cases (where_of v)) [
  | inl h ↦
      let (step, cs) = extract_other v l r p j h in
      rw (step, cs)
        (appended is_join_condition j (conditions l) (conditions r) (join_conditions_lem l p j)
          (join_conditions_lem r _ _))
  | inr (e, h) ↦
      let (step, cs) = extract_condition v e l r p j h in
      rw (step, cs)
        (appended is_join_condition j (e ∷ conditions l) (conditions r)
          (appended is_join_condition j (e ∷ []) (conditions l) (one_join_condition e j)
            (join_conditions_lem l _ _))
          (join_conditions_lem r _ _))
]

root_lem :
    (t : AstNode) (p j : List WhereClauseNode) → HasNoCondition (extract_predicate t p j).root
unfolding extract_predicate
root_lem null p j = tt
root_lem (node v l r) p j = elim (Option-cases (where_of v)) [
  | inl h ↦ rw ((extract_other v l r p j h).0) (h, root_lem l p j, root_lem r _ _)
  | inr (e, h) ↦ rw ((extract_condition v e l r p j h).0) (root_lem l _ _)
]

-- Extraction leaves a tree without conditions; the conditions of the tree, in the order a node,
-- its left side, its right side, are appended to the two lists: the join conditions to the one,
-- the others to the other.
pub extract_predicate_lem :
    (t : AstNode) (p j : List WhereClauseNode)
    → HasNoCondition (extract_predicate t p j).root
      × ((extract_predicate t p j).predicate ≡ p ++ keep_if is_predicate (conditions t))
      × ((extract_predicate t p j).join_cond ≡ j ++ keep_if is_join_condition (conditions t))
extract_predicate_lem t p j = (root_lem t p j, predicates_lem t p j, join_conditions_lem t p j)
