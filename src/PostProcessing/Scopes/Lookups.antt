-- ===== src/PostProcessing/Scopes/Lookups.antt =====
-- What the two maps of `ensureCorrectColumnSetup` hold, by the columns of the selection that they come
-- from.
use db_query_optimizer.Common.{
  Option, none, some, List, [], ◌∷◌, if◌then◌else◌, ◌≡◌, refl, arith, ap, ◌∙◌, sym, Bool-cases,
  Option-cases, inl, inr,
}
use db_query_optimizer.Common.Text.{Text, text_eq, text_eq_refl}
use db_query_optimizer.Base.{TableColumn}
use db_query_optimizer.PostProcessing.{Aliases, no_aliases, lookup, enter_alias, enter_aliases}
use db_query_optimizer.PostProcessing.Scopes.{given_alias, is_text, or_else, name_in, alias_in}

or_else-or_else : (o p q : Option Text) → or_else (or_else o p) q ≡ or_else o (or_else p q)
unfolding or_else
or_else-or_else none p q = refl
or_else-or_else (some x) p q = refl

-- What is looked up in the maps of a selection's columns.
lookup_name :
    (c : TableColumn) (m : Aliases) (alias : Text)
    → lookup (enter_alias c m).alias_to_name alias
      ≡ or_else
          (if is_text (given_alias c) alias then some c.column_name else none)
          (lookup m.alias_to_name alias)
unfolding enter_alias lookup given_alias is_text or_else text_eq
lookup_name c m alias = go c.alias refl
  where
    go :
        (o : Option Text)
        → c.alias ≡ o
        → lookup (enter_alias c m).alias_to_name alias
          ≡ or_else
              (if is_text (given_alias c) alias then some c.column_name else none)
              (lookup m.alias_to_name alias)
    go none e = rw e refl
    go (some []) e = rw e refl
    go (some (b ∷ s)) e = elim (Bool-cases (text_eq alias (b ∷ s))) [
      | inl y ↦ rw (e, y) refl
      | inr n ↦ rw (e, n) refl
    ]

lookup_alias :
    (c : TableColumn) (m : Aliases) (name : Text)
    → lookup (enter_alias c m).name_to_alias name
      ≡ or_else
          (if text_eq name c.column_name then given_alias c else none)
          (lookup m.name_to_alias name)
unfolding enter_alias lookup given_alias or_else text_eq
lookup_alias c m name = go c.alias refl
  where
    go :
        (o : Option Text)
        → c.alias ≡ o
        → lookup (enter_alias c m).name_to_alias name
          ≡ or_else
              (if text_eq name c.column_name then given_alias c else none)
              (lookup m.name_to_alias name)
    go none e = elim (Bool-cases (text_eq name c.column_name)) [
      | inl y ↦ rw (e, y) refl
      | inr n ↦ rw (e, n) refl
    ]
    go (some []) e = elim (Bool-cases (text_eq name c.column_name)) [
      | inl y ↦ rw (e, y) refl
      | inr n ↦ rw (e, n) refl
    ]
    go (some (b ∷ s)) e = elim (Bool-cases (text_eq name c.column_name)) [
      | inl y ↦ rw (e, y) refl
      | inr n ↦ rw (e, n) refl
    ]

names_entered :
    (cs : List TableColumn) (m : Aliases) (alias : Text)
    → lookup (enter_aliases cs m).alias_to_name alias
      ≡ or_else (name_in cs alias) (lookup m.alias_to_name alias)
unfolding enter_aliases name_in or_else
names_entered [] m alias = refl
names_entered (c ∷ cs) m alias =
    names_entered cs (enter_alias c m) alias
    ∙ ap (or_else (name_in cs alias)) (lookup_name c m alias)
    ∙ sym (or_else-or_else (name_in cs alias) _ _)

aliases_entered :
    (cs : List TableColumn) (m : Aliases) (name : Text)
    → lookup (enter_aliases cs m).name_to_alias name
      ≡ or_else (alias_in cs name) (lookup m.name_to_alias name)
unfolding enter_aliases alias_in or_else
aliases_entered [] m name = refl
aliases_entered (c ∷ cs) m name =
    aliases_entered cs (enter_alias c m) name
    ∙ ap (or_else (alias_in cs name)) (lookup_alias c m name)
    ∙ sym (or_else-or_else (alias_in cs name) _ _)

or_else-none : (o : Option Text) → or_else o none ≡ o
unfolding or_else
or_else-none none = refl
or_else-none (some x) = refl

pub name_found :
    (scope : List TableColumn) (key : Text)
    → lookup (enter_aliases scope no_aliases).alias_to_name key ≡ name_in scope key
unfolding lookup
name_found scope key = names_entered scope no_aliases key ∙ or_else-none (name_in scope key)

pub alias_found :
    (scope : List TableColumn) (key : Text)
    → lookup (enter_aliases scope no_aliases).name_to_alias key ≡ alias_in scope key
unfolding lookup
alias_found scope key = aliases_entered scope no_aliases key ∙ or_else-none (alias_in scope key)

-- A name that an alias stands for has an alias.
pub alias_known :
    (cs : List TableColumn) (alias name : Text)
    → name_in cs alias ≡ some name
    → (a : Text) × (alias_in cs name ≡ some a)
unfolding name_in alias_in or_else is_text
alias_known [] alias name h = cc
alias_known (c ∷ cs) alias name h = elim (Option-cases (alias_in cs name)) [
  | inr (a, e) ↦ (a, rw (alias_in, e) refl)
  | inl n ↦ elim (Option-cases (name_in cs alias)) [
    | inr (other, e) ↦
        let same : some other ≡ some name = rw (name_in, e) at h in
        let (a, k) = alias_known cs alias name (e ∙ same) in absurd (ground arith)
    | inl e ↦ elim (Option-cases (given_alias c)) [
      | inl g ↦ let bad : none ≡ some name = rw (name_in, e, g) at h in cc
      | inr (a, g) ↦ elim (Bool-cases (text_eq alias a)) [
        | inl t ↦
            let same : some c.column_name ≡ some name = rw (name_in, e, g, t) at h in
            (a, ground (arith, text_eq_refl name))
        | inr t ↦ let bad : none ≡ some name = rw (name_in, e, g, t) at h in cc
      ]
    ]
  ]
]
