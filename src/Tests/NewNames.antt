-- ===== src/Tests/NewNames.antt =====
-- Two names of one generator.
use db_query_optimizer.Common.{ℕ, ◌≢◌, arith}
use db_query_optimizer.Common.Text.{bytes}
use db_query_optimizer.Names.{next}
use db_query_optimizer.Names.Distinct.{counter_after, next_distinct}

one_is_not_two : ◌≢◌ {A = ℕ} 1 2
one_is_not_two h = omega arith

next_distinct_example :
    (next (counter_after 1) (bytes "d_year")).0 ≢ (next (counter_after 2) (bytes "d_year_1")).0
next_distinct_example =
    next_distinct 1 2 (bytes "d_year") (bytes "d_year_1") (omega arith) (omega arith) one_is_not_two
