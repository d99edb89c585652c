-- ===== src/Names.antt =====
-- `NameGenerator` of include/util/name_generator.hpp: names for temporary columns. The counter is a
-- `uint32_t` and wraps around.
pub mod Distinct
pub mod Renamer
use db_query_optimizer.Common.{
  ℕ, zero, suc, ◌+◌, ◌/◌, ◌%◌, ◌^◌, Bool, true, false, List, [], ◌∷◌, ◌++◌, reverse, ◌==◌,
  if◌then◌else◌,
}
use db_query_optimizer.Common.Text.{Text}

-- The decimal digits, the last one first. A number below the fuel has no more digits than the fuel.
unfoldable pub digits_back : ℕ → ℕ → Text
digits_back zero n = []
digits_back (suc fuel) n =
    let rest = digits_back fuel (n / 10) in (b'0' + n % 10) ∷ (if n / 10 == 0 then [] else rest)

-- `std::to_string`
unfoldable pub to_string : ℕ → Text
unfolding digits_back
to_string n = reverse (digits_back (suc n) n)

-- `cur`
unfoldable pub cur : ℕ → Text → Text
unfolding to_string
cur counter prefix = prefix ++ b'_' ∷ to_string counter

-- `counter++`
unfoldable pub next_counter : ℕ → ℕ
next_counter counter = (counter + 1) % 2 ^ 32

-- `next`: the name, and the counter after it.
unfoldable pub next : ℕ → Text → Text × ℕ
unfolding cur next_counter
next counter prefix = (cur counter prefix, next_counter counter)
