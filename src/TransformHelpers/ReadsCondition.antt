-- ===== src/TransformHelpers/ReadsCondition.antt =====
-- `parseJoinCondition` reads back a comparison that is written with any white space around its
-- parts.
use db_query_optimizer.Common.{
  ℕ, suc, ◌+◌, Bool, true, false, ◌||◌, none, some, List, [], ◌∷◌, ◌++◌, ◌==◌, ◌≡◌, refl, sym, ap,
  ap₂, ◌∙◌, Bool-cases, inl, inr, arith, length, take, drop, all,
}
use mathlib.Core.List.{append-nil}
use db_query_optimizer.Common.Text.{Text, bytes, starts_with, find, is_space}
use db_query_optimizer.TransformHelpers.{
  trim, split_at, first_symbol, symbol_ops, parse_join_condition, to_upper,
}
use db_query_optimizer.TransformHelpers.Trim.{
  starts_word, ends_word, is_blank, trim_lem, starts_word-append, ends_word-append,
}

-- The byte stands in the text.
unfoldable pub has_byte : ℕ → Text → Bool
has_byte b [] = false
has_byte b (c ∷ s) = (b == c) || has_byte b s

has_byte-append : (b : ℕ) (s t : Text) → has_byte b (s ++ t) ≡ has_byte b s || has_byte b t
unfolding has_byte
has_byte-append b [] t = refl
has_byte-append b (c ∷ s) t = ground (arith, has_byte-append b s t)

starts_with_byte :
    (b : ℕ) (s t : Text) → has_byte b t ≡ true → starts_with s t ≡ true → has_byte b s ≡ true
unfolding starts_with has_byte
starts_with_byte b s [] h k = cc
starts_with_byte b [] (c ∷ t) h k = cc
starts_with_byte b (d ∷ s) (c ∷ t) h k = ground (arith, starts_with_byte b s t)

conflict : (b : Bool) → b ≡ true → b ≡ false → ⊥
conflict b h k = cc

-- A text that lacks a byte of the pattern lacks the pattern.
find_absent : (b : ℕ) (s t : Text) → has_byte b t ≡ true → has_byte b s ≡ false → find s t ≡ none
unfolding find has_byte
find_absent b [] t h k = elim (Bool-cases (starts_with [] t)) [
  | inl e ↦ absurd (conflict _ (starts_with_byte b [] t h e) k)
  | inr e ↦ rw e refl
]
find_absent b (c ∷ s) t h k = elim (Bool-cases (starts_with (c ∷ s) t)) [
  | inl e ↦ absurd (conflict _ (starts_with_byte b (c ∷ s) t h e) k)
  | inr e ↦ rw (e, find_absent b s t h (ground arith)) refl
]

starts_with_self : (t r : Text) → starts_with (t ++ r) t ≡ true
unfolding starts_with
starts_with_self [] r = refl
starts_with_self (c ∷ t) r = ground (arith, starts_with_self t r)

==_comm : (a b : ℕ) → (a == b) ≡ (b == a)
==_comm a b = ground arith

-- Where the first byte of the pattern does not stand before it, it is found behind that text.
find_here :
    (l r t : Text) (b : ℕ)
    → has_byte b l ≡ false
    → find (l ++ ((b ∷ t) ++ r)) (b ∷ t) ≡ some (length l)
unfolding find has_byte starts_with
find_here [] r t b h = rw (starts_with_self (b ∷ t) r) refl
find_here (c ∷ l) r t b h =
    let other : (b == c) ≡ false = ground arith in
    let later : has_byte b l ≡ false = ground arith in
    rw (==_comm c b, other, find_here l r t b later) refl

take_here : (l s : Text) → take (length l) (l ++ s) ≡ l
take_here [] [] = refl
take_here [] (c ∷ s) = refl
take_here (c ∷ l) s = ap (λ t. c ∷ t) (take_here l s)

drop_front : (o s : Text) → drop (length o) (o ++ s) ≡ s
drop_front [] s = refl
drop_front (c ∷ o) s = drop_front o s

drop_here : (l o s : Text) → drop (length l + length o) (l ++ (o ++ s)) ≡ s
drop_here [] o s =
    let e : 0 + length o ≡ length o = omega arith in ap (λ n. drop n (o ++ s)) e ∙ drop_front o s
drop_here (c ∷ l) o s =
    let e : suc (length l) + length o ≡ suc (length l + length o) = omega arith in
    ap (λ n. drop n (c ∷ (l ++ (o ++ s)))) e ∙ drop_here l o s

-- An operator that stands behind `l` is found, and splits the text there.
split_here :
    (l r t : Text) (b : ℕ) (ops : List Text)
    → has_byte b l ≡ false
    → first_symbol (l ++ ((b ∷ t) ++ r)) ((b ∷ t) ∷ ops)
      ≡ some (record { left = trim l; right = trim r; op = b ∷ t })
unfolding first_symbol split_at
split_here l r t b ops h =
    rw (first_symbol, find_here l r t b h, take_here l ((b ∷ t) ++ r), drop_here l (b ∷ t) r) refl

pass_by :
    (b : ℕ) (s t : Text) (ops : List Text)
    → has_byte b t ≡ true
    → has_byte b s ≡ false
    → first_symbol s (t ∷ ops) ≡ first_symbol s ops
unfolding first_symbol
pass_by b s t ops h k = rw (first_symbol, find_absent b s t h k) refl

-- No byte of a symbol operator.
pub record HasNoSymbol (s : Text) : Type 0 where
  pub no_lt : has_byte b'<' s ≡ false
  pub no_gt : has_byte b'>' s ≡ false
  pub no_eq : has_byte b'=' s ≡ false
  pub no_not : has_byte b'!' s ≡ false

lacks :
    (b : ℕ) (l t r : Text)
    → has_byte b l ≡ false
    → has_byte b t ≡ false
    → has_byte b r ≡ false
    → has_byte b (l ++ (t ++ r)) ≡ false
lacks b l t r h k j = ground (arith, has_byte-append b l (t ++ r), has_byte-append b t r)

-- The operators in the order of the loop.
pub data IsSymbolOp : Text → Type 0 where
  less_eq : IsSymbolOp (bytes "<=")
  greater_eq : IsSymbolOp (bytes ">=")
  not_eq : IsSymbolOp (bytes "!=")
  equal : IsSymbolOp (bytes "=")
  less : IsSymbolOp (bytes "<")
  greater : IsSymbolOp (bytes ">")

-- The loop takes the operator that stands between the sides.
first_symbol_lem :
    (l op r : Text)
    → IsSymbolOp op
    → HasNoSymbol l
    → HasNoSymbol r
    → first_symbol (l ++ (op ++ r)) symbol_ops
      ≡ some (record { left = trim l; right = trim r; op = op })
unfolding has_byte
first_symbol_lem l op r less_eq nl nr = split_here l r (bytes "=") b'<' _ nl.no_lt
first_symbol_lem l op r greater_eq nl nr =
    pass_by b'<' _ _ _ refl (lacks b'<' l (bytes ">=") r nl.no_lt refl nr.no_lt)
    ∙ split_here l r (bytes "=") b'>' _ nl.no_gt
first_symbol_lem l op r not_eq nl nr =
    pass_by b'<' _ _ _ refl (lacks b'<' l (bytes "!=") r nl.no_lt refl nr.no_lt)
    ∙ pass_by b'>' _ _ _ refl (lacks b'>' l (bytes "!=") r nl.no_gt refl nr.no_gt)
    ∙ split_here l r (bytes "=") b'!' _ nl.no_not
first_symbol_lem l op r equal nl nr =
    pass_by b'<' _ _ _ refl (lacks b'<' l (bytes "=") r nl.no_lt refl nr.no_lt)
    ∙ pass_by b'>' _ _ _ refl (lacks b'>' l (bytes "=") r nl.no_gt refl nr.no_gt)
    ∙ pass_by b'!' _ _ _ refl (lacks b'!' l (bytes "=") r nl.no_not refl nr.no_not)
    ∙ split_here l r [] b'=' _ nl.no_eq
first_symbol_lem l op r less nl nr =
    pass_by b'=' _ _ _ refl (lacks b'=' l (bytes "<") r nl.no_eq refl nr.no_eq)
    ∙ pass_by b'>' _ _ _ refl (lacks b'>' l (bytes "<") r nl.no_gt refl nr.no_gt)
    ∙ pass_by b'!' _ _ _ refl (lacks b'!' l (bytes "<") r nl.no_not refl nr.no_not)
    ∙ pass_by b'=' _ _ _ refl (lacks b'=' l (bytes "<") r nl.no_eq refl nr.no_eq)
    ∙ split_here l r [] b'<' _ nl.no_lt
first_symbol_lem l op r greater nl nr =
    pass_by b'<' _ _ _ refl (lacks b'<' l (bytes ">") r nl.no_lt refl nr.no_lt)
    ∙ pass_by b'=' _ _ _ refl (lacks b'=' l (bytes ">") r nl.no_eq refl nr.no_eq)
    ∙ pass_by b'!' _ _ _ refl (lacks b'!' l (bytes ">") r nl.no_not refl nr.no_not)
    ∙ pass_by b'=' _ _ _ refl (lacks b'=' l (bytes ">") r nl.no_eq refl nr.no_eq)
    ∙ pass_by b'<' _ _ _ refl (lacks b'<' l (bytes ">") r nl.no_lt refl nr.no_lt)
    ∙ split_here l r [] b'>' _ nl.no_gt

blank_lacks : (b : ℕ) (s : Text) → is_space b ≡ false → is_blank s ≡ true → has_byte b s ≡ false
unfolding is_blank all has_byte
blank_lacks b [] h k = refl
blank_lacks b (c ∷ s) h k = elim (Bool-cases (b == c)) [
  | inl e ↦
      let same : b ≡ c = ground arith in
      absurd (conflict (is_space c) (ground arith) (sym (ap is_space same) ∙ h))
  | inr e ↦ ground (arith, blank_lacks b s h)
]

no_symbol-append : (s t : Text) → HasNoSymbol s → HasNoSymbol t → HasNoSymbol (s ++ t)
no_symbol-append s t h k = record {
  no_lt = ground (arith, has_byte-append b'<' s t, h.no_lt, k.no_lt);
  no_gt = ground (arith, has_byte-append b'>' s t, h.no_gt, k.no_gt);
  no_eq = ground (arith, has_byte-append b'=' s t, h.no_eq, k.no_eq);
  no_not = ground (arith, has_byte-append b'!' s t, h.no_not, k.no_not);
}

blank_no_symbol : (s : Text) → is_blank s ≡ true → HasNoSymbol s
unfolding is_space
blank_no_symbol s h = record {
  no_lt = blank_lacks b'<' s refl h;
  no_gt = blank_lacks b'>' s refl h;
  no_eq = blank_lacks b'=' s refl h;
  no_not = blank_lacks b'!' s refl h;
}

-- Without a keyword in it, a trimmed text goes to the loop.
no_keyword :
    (input expr : Text)
    → trim input ≡ expr
    → find (to_upper expr) (bytes " BETWEEN ") ≡ none
    → find (to_upper expr) (bytes " IN ") ≡ none
    → parse_join_condition input ≡ first_symbol expr symbol_ops
unfolding parse_join_condition
no_keyword input expr e h k = rw (parse_join_condition, e, h, e, k, e) refl

trim_right :
    (pad s : Text)
    → is_blank pad ≡ true
    → starts_word s ≡ true
    → ends_word s ≡ true
    → trim (pad ++ s) ≡ s
unfolding is_blank all
trim_right pad s h first last =
    ap (λ t. trim (pad ++ t)) (sym (append-nil s)) ∙ trim_lem pad s [] h first last refl

-- What is written as a left side, one of the six symbol operators and a right side, with any
-- white space before, between and behind them, is read back as the left side, the right side and
-- the operator, in this order: neither side has a byte of an operator in it, is empty or starts or
-- ends with white space, and the text has neither of the keywords BETWEEN and IN between spaces,
-- in any case.
pub parse_join_condition_lem :
    (pad1 l pad2 op pad3 r pad4 : Text)
    → is_blank pad1 ≡ true
    → is_blank pad2 ≡ true
    → is_blank pad3 ≡ true
    → is_blank pad4 ≡ true
    → starts_word l ≡ true
    → ends_word l ≡ true
    → HasNoSymbol l
    → IsSymbolOp op
    → starts_word r ≡ true
    → ends_word r ≡ true
    → HasNoSymbol r
    → find (to_upper ((l ++ pad2) ++ (op ++ (pad3 ++ r)))) (bytes " BETWEEN ") ≡ none
    → find (to_upper ((l ++ pad2) ++ (op ++ (pad3 ++ r)))) (bytes " IN ") ≡ none
    → parse_join_condition (pad1 ++ (((l ++ pad2) ++ (op ++ (pad3 ++ r))) ++ pad4))
      ≡ some (record { left = l; right = r; op = op })
unfolding is_blank all
parse_join_condition_lem pad1 l pad2 op pad3 r pad4 b1 b2 b3 b4 sl el nl is_op sr er nr h k =
    no_keyword _ _
      (trim_lem pad1 _ pad4 b1 (starts_word-append (l ++ pad2) _ (starts_word-append l pad2 sl))
        (ends_word-append (l ++ pad2) _ (ends_word-append op _ (ends_word-append pad3 r er))) b4)
      h k
    ∙ first_symbol_lem (l ++ pad2) op (pad3 ++ r) is_op
        (no_symbol-append l pad2 nl (blank_no_symbol pad2 b2))
        (no_symbol-append pad3 r (blank_no_symbol pad3 b3) nr)
    ∙ ap₂ (λ x y. some (record { left = x; right = y; op = op })) (trim_lem [] l pad2 refl sl el b2)
        (trim_right pad3 r b3 sr er)
