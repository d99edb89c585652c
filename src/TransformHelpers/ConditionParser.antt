-- ===== src/TransformHelpers/ConditionParser.antt =====
-- `ConditionParser` of src/ir/transform_helpers.cpp. `std::regex_match` and the iterator over the
-- matches are the standard library's, and are parameters: the groups of a match, from the first.
use db_query_optimizer.Common.{
  ℕ, ◌+◌, Bool, ◌||◌, Option, none, some, List, [], ◌∷◌, map, if◌then◌else◌, ◌==◌, get_elem?, take,
  drop,
}
use db_query_optimizer.Common.Text.{Text, bytes, find}
use db_query_optimizer.TransformHelpers.{to_upper}

-- A byte of `" \t\n\r"`.
unfoldable pub is_blank_byte : ℕ → Bool
is_blank_byte c = (c == 32) || (c == 9) || (c == 10) || (c == 13)

unfoldable pub skip_blanks : Text → Text
unfolding is_blank_byte
skip_blanks [] = []
skip_blanks (c ∷ s) = let rest = skip_blanks s in if is_blank_byte c then rest else c ∷ s

unfoldable pub drop_blanks : Text → Text
unfolding is_blank_byte
drop_blanks [] = []
drop_blanks (c ∷ s) = elim (drop_blanks s) [
  | [] ↦ if is_blank_byte c then [] else c ∷ []
  | d ∷ t ↦ c ∷ d ∷ t
]

-- `_trim`
unfoldable pub trim_blanks : Text → Text
unfolding skip_blanks drop_blanks
trim_blanks s = drop_blanks (skip_blanks s)

-- The regular expressions of `parseCondition`.
pub data Regex : Type 0 where
  between_regex in_regex value_regex comp_regex : Regex

pub record ParsedCondition : Type 0 where
  pub column : Text
  pub op : Text
  pub arguments : List Text

-- `match[i]`: a group that is not there is an empty text.
unfoldable pub match_group : List Text → ℕ → Text
match_group groups i = elim (get_elem? groups i) [ none ↦ [] | some s ↦ s ]

module _ (regex_match : Regex → Text → Option (List Text))
    (regex_iterator : Regex → Text → List Text) where
  -- `parseCondition`
  unfoldable pub parse_condition : Text → Option ParsedCondition
  unfolding trim_blanks match_group
  parse_condition input =
      let s = trim_blanks input in
      elim (regex_match between_regex s) [
        | some m ↦ some (record {
          column = match_group m 0;
          op = bytes "BETWEEN";
          arguments = trim_blanks (match_group m 1) ∷ trim_blanks (match_group m 2) ∷ [];
        })
        | none ↦ elim (regex_match in_regex s) [
          | some m ↦ some (record {
            column = match_group m 0;
            op = bytes "IN";
            arguments = map trim_blanks (regex_iterator value_regex (match_group m 1));
          })
          | none ↦ elim (regex_match comp_regex s) [
            | some m ↦ some (record {
              column = match_group m 0;
              op = match_group m 1;
              arguments = trim_blanks (match_group m 2) ∷ [];
            })
            | none ↦ none
          ]
        ]
      ]

pub record ColWithAlias : Type 0 where
  pub name : Text
  pub alias : Option Text

-- `extractAlias`
unfoldable pub extract_alias : Text → ColWithAlias
unfolding trim_blanks to_upper find
extract_alias input =
    let s = trim_blanks input in
    elim (find (to_upper s) (bytes " AS ")) [
      | none ↦ record { name = input; alias = none }
      | some pos ↦ record { name = take pos s; alias = some (drop (pos + 4) s) }
    ]
