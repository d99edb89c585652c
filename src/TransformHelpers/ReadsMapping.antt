-- ===== src/TransformHelpers/ReadsMapping.antt =====
-- `parseMapping` reads back a mapping that is written with any white space around its parts, and
-- throws where a text has no operator.
use db_query_optimizer.Common.{
  ℕ, true, false, none, some, [], ◌∷◌, ◌++◌, ◌≡◌, refl, sym, ap, ap₂, ◌∙◌, arith, all,
}
use mathlib.Core.List.{append_assoc}
use db_query_optimizer.Common.Text.{Text, is_space}
use db_query_optimizer.TransformHelpers.{
  skip_spaces, drop_spaces, is_arith_op, contains_arith_map_op, before_op, from_op, mapping_of,
  parse_mapping,
}
use db_query_optimizer.TransformHelpers.Trim.{
  starts_word, ends_word, is_blank, skip_spaces_pad, skip_spaces_word, drop_spaces_pad,
  drop_spaces_word,
}

before_op_lem :
    (s t : Text) (op : ℕ)
    → contains_arith_map_op s ≡ false
    → is_arith_op op ≡ true
    → before_op (s ++ op ∷ t) ≡ s
unfolding before_op contains_arith_map_op
before_op_lem [] t op h k = ground arith
before_op_lem (c ∷ s) t op h k = ground (arith, before_op_lem s t op)

from_op_lem :
    (s t : Text) (op : ℕ)
    → contains_arith_map_op s ≡ false
    → is_arith_op op ≡ true
    → from_op (s ++ op ∷ t) ≡ op ∷ t
unfolding from_op contains_arith_map_op
from_op_lem [] t op h k = ground arith
from_op_lem (c ∷ s) t op h k = ground (arith, from_op_lem s t op)

from_op_none : (s : Text) → contains_arith_map_op s ≡ false → from_op s ≡ []
unfolding from_op contains_arith_map_op
from_op_none [] h = refl
from_op_none (c ∷ s) h = ground (arith, from_op_none s)

skip_no_op :
    (s : Text) → contains_arith_map_op s ≡ false → contains_arith_map_op (skip_spaces s) ≡ false
unfolding skip_spaces contains_arith_map_op
skip_no_op [] h = refl
skip_no_op (c ∷ s) h = ground (arith, skip_no_op s)

space_no_op : (c : ℕ) → is_space c ≡ true → is_arith_op c ≡ false
unfolding is_arith_op is_space
space_no_op c h = ground arith

blank_no_op : (s : Text) → is_blank s ≡ true → contains_arith_map_op s ≡ false
unfolding is_blank contains_arith_map_op all
blank_no_op [] h = refl
blank_no_op (c ∷ s) h = ground (arith, space_no_op c, blank_no_op s)

no_op-append :
    (s t : Text)
    → contains_arith_map_op s ≡ false
    → contains_arith_map_op t ≡ false
    → contains_arith_map_op (s ++ t) ≡ false
unfolding contains_arith_map_op
no_op-append [] t h k = k
no_op-append (c ∷ s) t h k = ground (arith, no_op-append s t)

-- From the text behind the padding on.
parse_start :
    (input l rest : Text) (op : ℕ)
    → skip_spaces input ≡ l ++ op ∷ rest
    → contains_arith_map_op l ≡ false
    → is_arith_op op ≡ true
    → parse_mapping input ≡ mapping_of (drop_spaces l) op (drop_spaces (skip_spaces rest))
unfolding parse_mapping
parse_start input l rest op e h k =
    rw (parse_mapping, e, from_op_lem l rest op h k)
      (ap (λ t. mapping_of (drop_spaces t) op (drop_spaces (skip_spaces rest)))
        (ap before_op e ∙ before_op_lem l rest op h k))

both_there :
    (l r : Text) (op : ℕ)
    → starts_word l ≡ true
    → starts_word r ≡ true
    → mapping_of l op r ≡ some (record { lhs = l; op = op; rhs = r })
unfolding mapping_of starts_word
both_there [] r op h k = cc
both_there (c ∷ l) [] op h k = cc
both_there (c ∷ l) (d ∷ r) op h k = refl

-- What is written as a left operand without an operator in it, one of the five operators, and a
-- right operand, with any white space before, between and behind them, is read back as those
-- three: neither operand is empty, nor starts or ends with white space.
pub parse_mapping_lem :
    (pad1 l pad2 pad3 r pad4 : Text) (op : ℕ)
    → is_blank pad1 ≡ true
    → is_blank pad2 ≡ true
    → is_blank pad3 ≡ true
    → is_blank pad4 ≡ true
    → starts_word l ≡ true
    → ends_word l ≡ true
    → contains_arith_map_op l ≡ false
    → is_arith_op op ≡ true
    → starts_word r ≡ true
    → ends_word r ≡ true
    → parse_mapping (pad1 ++ (l ++ (pad2 ++ op ∷ (pad3 ++ (r ++ pad4)))))
      ≡ some (record { lhs = l; op = op; rhs = r })
parse_mapping_lem pad1 l pad2 pad3 r pad4 op b1 b2 b3 b4 sl el nl is_op sr er =
    parse_start _ (l ++ pad2) (pad3 ++ (r ++ pad4)) op
      (skip_spaces_pad pad1 _ b1 ∙ skip_spaces_word l _ sl ∙ sym (append_assoc l pad2 _))
      (no_op-append l pad2 nl (blank_no_op pad2 b2)) is_op
    ∙ ap₂ (λ x y. mapping_of x op y) (drop_spaces_pad l pad2 b2 ∙ drop_spaces_word l el)
        (ap drop_spaces (skip_spaces_pad pad3 _ b3 ∙ skip_spaces_word r pad4 sr)
          ∙ drop_spaces_pad r pad4 b4
          ∙ drop_spaces_word r er)
    ∙ both_there l r op sl sr

-- A text without one of the five operators is refused: the guard `containsArithMapOp` holds
-- wherever `parseMapping` returns.
pub parse_mapping-none :
    (input : Text) → contains_arith_map_op input ≡ false → parse_mapping input ≡ none
unfolding parse_mapping
parse_mapping-none input h =
    rw (parse_mapping, from_op_none (skip_spaces input) (skip_no_op input h)) refl
