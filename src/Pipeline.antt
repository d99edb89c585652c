-- ===== src/Pipeline.antt =====
-- `DBClient::runOptimizerPipeline` of src/client/DBClient.cpp, from the first plan to the plan with
-- renamed columns. The files with graphs of the plan are left out.
pub mod Returns
pub mod MaterializePlan
pub mod Materialized
pub mod Prepared
use db_query_optimizer.Common.{ℕ, Bool, Option, some, [], if◌then◌else◌, ◌>>=◌}
use db_query_optimizer.Common.Text.{Text, text_eq, bytes}
use db_query_optimizer.Ir.{Plan}
use db_query_optimizer.Optimizations.SemiJoin.{place_semi_joins}
use db_query_optimizer.Optimizations.SortMerge.{merge_sort_into_group}
use db_query_optimizer.Optimizations.AggMove.{move_agg_into_group}
use db_query_optimizer.Ast as Ast
use db_query_optimizer.AstToIr.{ast_to_ir}
use db_query_optimizer.PostProcessing.{no_aliases, ensure_correct_column_setup}

pub data MaterializeOptTypes : Type 0 where
  fill_materializes_type put_late_materialization_type put_late_materializations_hybrid_type :
      MaterializeOptTypes

-- `setMatType`
unfoldable pub mat_type_of : Text → MaterializeOptTypes
unfolding text_eq
mat_type_of type =
    if text_eq type (bytes "lateMat")
    then put_late_materialization_type
    else if text_eq type (bytes "lateMatHybrid")
    then put_late_materializations_hybrid_type
    else fill_materializes_type

-- The switches of `clientConfig` that this part reads.
pub record ClientConfiguration : Type 0 where
  pub semi_joins : Bool
  pub merge_subset_sort : Bool
  pub mat_type : MaterializeOptTypes
  pub grand_child_opt : Bool

unfoldable pub with_semi_joins : ClientConfiguration → Plan → Option Plan
unfolding place_semi_joins
with_semi_joins config p = if config.semi_joins then place_semi_joins p [] else some p

unfoldable pub with_merged_sorts : ClientConfiguration → Plan → Plan
unfolding merge_sort_into_group
with_merged_sorts config p = if config.merge_subset_sort then merge_sort_into_group p else p

unfoldable pub optimize_plan : ClientConfiguration → Plan → Option Plan
unfolding ensure_correct_column_setup with_semi_joins with_merged_sorts move_agg_into_group
optimize_plan config ir_root = do
  placed ← with_semi_joins config (ensure_correct_column_setup ir_root no_aliases)
  (_, moved) ← move_agg_into_group (with_merged_sorts config placed)
  some moved

-- The plan of a syntax tree, where no plan in JSON is given. A null tree, whose root the source reads for the
-- dot file, gives the null plan.
unfoldable pub optimize_ast :
    (Text → Option ℕ) → (Text → Option ℕ) → ClientConfiguration → Ast.AstNode → Option Plan
unfolding ast_to_ir optimize_plan
optimize_ast stoull stof config root = ast_to_ir stoull stof root >>= optimize_plan config
