-- ===== src/Optimizations.antt =====
-- The passes of src/ir_optimizations/ir_optimizations.cpp that run on the plan tree, before
-- materializations are placed and nodes become shared.
pub mod SemiJoin
pub mod SortMerge
pub mod AggMove
