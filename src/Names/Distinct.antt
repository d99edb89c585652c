-- ===== src/Names/Distinct.antt =====
-- Two names of the generator differ if their counters or their prefixes do.
use db_query_optimizer.Common.{
  ℕ, zero, suc, ◌+◌, ◌*◌, ◌/◌, ◌%◌, ◌^◌, ◌-◌, ◌<◌, ◌≢◌, true, false, [], ◌∷◌, ◌++◌, reverse, ◌==◌,
  if◌then◌else◌, ◌≡◌, refl, sym, ap, ◌∙◌, arith, Bool-cases, inl, inr,
}
use db_query_optimizer.Common.Text.{Text}
use mathlib.Core.List.{append_assoc, reverse-append, reverse-cons, reverse-reverse}
use db_query_optimizer.Names.{digits_back, to_string, cur, next_counter, next}

-- The number that is read from the last digit on, and what stands before the first `_`.
unfoldable read_number : Text → ℕ
read_number [] = 0
read_number (c ∷ s) = let rest = read_number s in if c == b'_' then 0 else (c - b'0' + 10 * rest)

unfoldable read_prefix : Text → Text
read_prefix [] = []
read_prefix (c ∷ s) = let rest = read_prefix s in if c == b'_' then s else rest

digit_no_bar : (n : ℕ) → (b'0' + n % 10 == b'_') ≡ false
digit_no_bar n = ground arith

split_ten : (n : ℕ) → n % 10 + 10 * (n / 10) ≡ n
split_ten n = omega arith

read_digit :
    (n : ℕ) (s : Text)
    → (read_number ((b'0' + n % 10) ∷ s) ≡ n % 10 + 10 * read_number s)
      × (read_prefix ((b'0' + n % 10) ∷ s) ≡ read_prefix s)
unfolding read_number read_prefix
read_digit n s = (ground (arith, digit_no_bar n), ground (arith, digit_no_bar n))

read_bar : (t : Text) → (read_number (b'_' ∷ t) ≡ 0) × (read_prefix (b'_' ∷ t) ≡ t)
unfolding read_number read_prefix
read_bar t = (refl, refl)

tenth_smaller : (n fuel : ℕ) → n < suc fuel → (n / 10 == 0) ≡ false → n / 10 < fuel
tenth_smaller n fuel h k = ground arith

last_digit : (n : ℕ) → (n / 10 == 0) ≡ true → n % 10 ≡ n
last_digit n h = ground arith

-- What is read back from the digits and the bar.
read-digits_back :
    (fuel n : ℕ) (t : Text)
    → n < fuel
    → (read_number (digits_back fuel n ++ b'_' ∷ t) ≡ n)
      × (read_prefix (digits_back fuel n ++ b'_' ∷ t) ≡ t)
unfolding digits_back
read-digits_back zero n t h = absurd (omega arith)
read-digits_back (suc fuel) n t h = elim (Bool-cases (n / 10 == 0)) [
  | inl e ↦ rw e (
    (read_digit n (b'_' ∷ t)).0 ∙ omega (arith, (read_bar t).0, last_digit n e),
    (read_digit n (b'_' ∷ t)).1 ∙ (read_bar t).1,
  )
  | inr e ↦
      let (num, pre) = read-digits_back fuel (n / 10) t (tenth_smaller n fuel h e) in
      rw e (
        (read_digit n (digits_back fuel (n / 10) ++ b'_' ∷ t)).0 ∙ omega (arith, num, split_ten n),
        (read_digit n (digits_back fuel (n / 10) ++ b'_' ∷ t)).1 ∙ pre,
      )
]

-- A name from its end on: the digits, the bar, the prefix.
reverse-cur :
    (n : ℕ) (prefix : Text)
    → reverse (cur n prefix) ≡ digits_back (suc n) n ++ b'_' ∷ reverse prefix
unfolding cur to_string
reverse-cur n prefix =
    reverse-append prefix (b'_' ∷ reverse (digits_back (suc n) n))
    ∙ ap (λ t. t ++ reverse prefix)
        (reverse-cons b'_' (reverse (digits_back (suc n) n))
          ∙ ap (λ t. t ++ b'_' ∷ []) (reverse-reverse (digits_back (suc n) n)))
    ∙ append_assoc (digits_back (suc n) n) (b'_' ∷ []) (reverse prefix)

-- A name determines its counter and its prefix, whatever the prefix is.
pub cur_injective :
    (n m : ℕ) (prefix prefix' : Text) → cur n prefix ≡ cur m prefix' → (n ≡ m) × (prefix ≡ prefix')
cur_injective n m prefix prefix' h =
    let same = sym (reverse-cur n prefix) ∙ ap reverse h ∙ reverse-cur m prefix' in
    let (num, pre) = read-digits_back (suc n) n (reverse prefix) (omega arith) in
    let (num', pre') = read-digits_back (suc m) m (reverse prefix') (omega arith) in
    (
      sym num ∙ ap read_number same ∙ num',
      sym (reverse-reverse prefix)
          ∙ ap reverse (sym pre ∙ ap read_prefix same ∙ pre')
          ∙ reverse-reverse prefix',
    )

-- The counter after a number of calls of `next` on a new generator.
unfoldable pub counter_after : ℕ → ℕ
counter_after zero = 0
counter_after (suc calls) = (next (counter_after calls) []).1

counter_after_lem : (calls : ℕ) → calls < 2 ^ 32 → counter_after calls ≡ calls
unfolding counter_after next next_counter
counter_after_lem zero h = refl
counter_after_lem (suc calls) h = let e = counter_after_lem calls (omega arith) in omega (arith, e)

-- Among the first 2^32 names of a generator no two are the same, whatever the prefixes are: until
-- the counter wraps around.
pub next_distinct :
    (i j : ℕ) (prefix prefix' : Text)
    → i < 2 ^ 32
    → j < 2 ^ 32
    → i ≢ j
    → (next (counter_after i) prefix).0 ≢ (next (counter_after j) prefix').0
unfolding next
next_distinct i j prefix prefix' h k different same = different (
    sym (counter_after_lem i h)
    ∙ (cur_injective (counter_after i) (counter_after j) prefix prefix' same).0
    ∙ counter_after_lem j k)
