-- ===== src/Materialize/Whole.antt =====
-- About the plans that the passes take: no child is null, and every node has its operator's shape
-- and an output.
use db_query_optimizer.Common.{◌≤◌, length}
use db_query_optimizer.Ir.{Plan, Plans, null, node, nil, cons}
use db_query_optimizer.Ir.Shape.{IsShaped}

abbrev mutual
  pub IsWhole : Plan → Type 0
  IsWhole null = ⊥
  IsWhole (node d cs) = (IsShaped d.ir_data × (1 ≤ length d.ir_data.output_cols)) × AreWhole cs

  pub AreWhole : Plans → Type 0
  AreWhole nil = Unit
  AreWhole (cons p ps) = IsWhole p × AreWhole ps
