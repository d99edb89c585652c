-- ===== src/Optimizations/AggMove/Count.antt =====
-- Counts of the aggregations in a plan, and the plans that the pass is made for.
use db_query_optimizer.Common.{ℕ, suc, ◌+◌, ◌≤◌, ◌≡◌, refl, arith}
use db_query_optimizer.Ir.{OpInfo, Plan, Plans, null, node, nil, cons, group_op, agg_op, select_op}
use db_query_optimizer.Ir.Shape.{agg_count}
use db_query_optimizer.Optimizations.SortMerge.Keeps.{IsPlain}

-- An aggregation of the node: its own, or the one in a group.
abbrev pub agg_here : OpInfo → ℕ
agg_here (agg_op _) = 1
agg_here (group_op op) = agg_count op.has_agg
agg_here _ = 0

abbrev pub is_agg : OpInfo → ℕ
is_agg (agg_op _) = 1
is_agg _ = 0

-- The aggregations that a node's parent counts: a selection closes its scope.
abbrev pub scope : OpInfo → ℕ → ℕ
scope (agg_op _) n = suc n
scope (select_op _) n = 0
scope _ n = n

abbrev mutual
  -- All aggregations, as nodes and in groups.
  pub aggs : Plan → ℕ
  aggs null = 0
  aggs (node d cs) = agg_here d.ir_data.op_info + aggs_in cs

  pub aggs_in : Plans → ℕ
  aggs_in nil = 0
  aggs_in (cons p ps) = aggs p + aggs_in ps

abbrev mutual
  -- The aggregation nodes that no selection hides.
  pub open_aggs : Plan → ℕ
  open_aggs null = 0
  open_aggs (node d cs) = scope d.ir_data.op_info (open_aggs_in cs)

  pub open_aggs_in : Plans → ℕ
  open_aggs_in nil = 0
  open_aggs_in (cons p ps) = open_aggs p + open_aggs_in ps

abbrev pub plan_count : Plans → ℕ
plan_count nil = 0
plan_count (cons p ps) = suc (plan_count ps)

abbrev pub agg_root : Plan → ℕ
agg_root null = 0
agg_root (node d cs) = is_agg d.ir_data.op_info

abbrev pub agg_roots : Plans → ℕ
agg_roots nil = 0
agg_roots (cons p ps) = agg_root p + agg_roots ps

-- An aggregation has exactly one child.
abbrev pub OpIsFed : OpInfo → Plans → Type 0
OpIsFed (agg_op _) cs = plan_count cs ≡ 1
OpIsFed _ cs = Unit

abbrev pub RootIsFed : Plan → Type 0
RootIsFed null = Unit
RootIsFed (node d cs) = OpIsFed d.ir_data.op_info cs

abbrev pub RootsAreFed : Plans → Type 0
RootsAreFed nil = Unit
RootsAreFed (cons p ps) = RootIsFed p × RootsAreFed ps

abbrev mutual
  -- Every node is plain, and every aggregation has exactly one child.
  pub IsReady : Plan → Type 0
  IsReady null = Unit
  IsReady (node d cs) = IsPlain d.ir_data × OpIsFed d.ir_data.op_info cs × AreReady cs

  pub AreReady : Plans → Type 0
  AreReady nil = Unit
  AreReady (cons p ps) = IsReady p × AreReady ps

is_agg-le-scope : (i : OpInfo) (n : ℕ) → is_agg i ≤ scope i n
is_agg-le-scope (agg_op _) n = omega arith
is_agg-le-scope _ n = omega arith

pub agg_roots-le-open_aggs_in : (cs : Plans) → agg_roots cs ≤ open_aggs_in cs
agg_roots-le-open_aggs_in nil = omega arith
agg_roots-le-open_aggs_in (cons null ps) = omega (arith, agg_roots-le-open_aggs_in ps)
agg_roots-le-open_aggs_in (cons (node d cs) ps) =
    omega (arith, agg_roots-le-open_aggs_in ps, is_agg-le-scope d.ir_data.op_info (open_aggs_in cs))

pub only_child : (cs : Plans) → plan_count cs ≡ 1 → (p : Plan) × (cs ≡ cons p nil)
only_child nil h = absurd (omega arith)
only_child (cons p nil) h = (p, refl)
only_child (cons p (cons q qs)) h = absurd (omega arith)
