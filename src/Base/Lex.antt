-- ===== src/Base/Lex.antt =====
-- Comparisons that go through several keys in turn, as the source's `operator<` do.
use db_query_optimizer.Common.{
  Bool, true, false, ◌≡◌, ◌↔◌, arith, not, if◌then◌else◌, none, some, Option, ap, refl,
}
use db_query_optimizer.Common.Text.{
  Text, text_eq, text_lt, text_eq_iff, text_lt_irrefl, text_lt_trans, text_lt_connex,
}
use db_query_optimizer.Base.{option_eq, option_lt}

-- `eq` decides equality, and `lt` is a strict total order.
pub record IsTotal {A : Type 0} (eq lt : A → A → Bool) : Type 0 where
  pub eq_iff : (a b : A) → (eq a b ≡ true) ↔ (a ≡ b)
  pub irrefl : (a : A) → lt a a ≡ false
  pub trans : (a b c : A) → lt a b ≡ true → lt b c ≡ true → lt a c ≡ true
  pub connex : (a b : A) → lt a b ≡ false → lt b a ≡ false → a ≡ b

-- `if (a != b) return a < b; return rest;`
abbrev pub lex : {A : Type 0} → (A → A → Bool) → (A → A → Bool) → A → A → Bool → Bool
lex eq lt a b rest = if not (eq a b) then lt a b else rest

module _ {A : Type 0} {eq lt : A → A → Bool} (total : IsTotal eq lt) where
  pub lex_irrefl : (a : A) (r : Bool) → r ≡ false → lex eq lt a a r ≡ false
  lex_irrefl a r h = ground (arith, total.eq_iff a a, total.irrefl a)

  pub lex_trans :
      (a b c : A) (r s t : Bool)
      → (r ≡ true → s ≡ true → t ≡ true)
      → lex eq lt a b r ≡ true
      → lex eq lt b c s ≡ true
      → lex eq lt a c t ≡ true
  lex_trans a b c r s t next h k = ground (
    arith,
    total.eq_iff a b,
    total.eq_iff b c,
    total.eq_iff a c,
    total.trans a b c,
    total.irrefl a,
    total.irrefl b,
    next,
  )

  -- Neither side is less exactly when the keys agree and neither rest is less.
  pub lex_none :
      (a b : A) (r s : Bool)
      → ((not (lex eq lt a b r) ≡ true) × (not (lex eq lt b a s) ≡ true))
        ↔ ((a ≡ b) × (r ≡ false) × (s ≡ false))
  lex_none a b r s =
      ground (arith, total.eq_iff a b, total.eq_iff b a, total.connex a b, total.irrefl a)

pub text-IsTotal : IsTotal text_eq text_lt
text-IsTotal = record {
  eq_iff = text_eq_iff;
  irrefl = text_lt_irrefl;
  trans = text_lt_trans;
  connex = text_lt_connex;
}

pub option-IsTotal : IsTotal option_eq option_lt
unfolding option_eq option_lt
option-IsTotal = record {
  eq_iff = option_eq_iff;
  irrefl = option_lt_irrefl;
  trans = option_lt_trans;
  connex = option_lt_connex;
}
  where
    option_eq_iff : (a b : Option Text) → (option_eq a b ≡ true) ↔ (a ≡ b)
    option_eq_iff none none = ground arith
    option_eq_iff none (some b) = ground arith
    option_eq_iff (some a) none = ground arith
    option_eq_iff (some a) (some b) = ground (arith, text_eq_iff a b)

    option_lt_irrefl : (a : Option Text) → option_lt a a ≡ false
    option_lt_irrefl none = refl
    option_lt_irrefl (some a) = text_lt_irrefl a

    option_lt_trans :
        (a b c : Option Text) → option_lt a b ≡ true → option_lt b c ≡ true → option_lt a c ≡ true
    option_lt_trans none (some b) (some c) h k = refl
    option_lt_trans (some a) (some b) (some c) h k = text_lt_trans a b c h k
    option_lt_trans a b c h k = ground arith

    option_lt_connex : (a b : Option Text) → option_lt a b ≡ false → option_lt b a ≡ false → a ≡ b
    option_lt_connex none none h k = refl
    option_lt_connex (some a) (some b) h k = ap some (text_lt_connex a b h k)
    option_lt_connex none (some b) h k = ground arith
    option_lt_connex (some a) none h k = ground arith
