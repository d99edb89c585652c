-- ===== src/Pipeline/MaterializePlan.antt =====
-- `DBClient::runOptimizerPipeline` of src/client/DBClient.cpp: the materializations and the
-- grandchildren optimization and the renaming.
use db_query_optimizer.Names.Renamer.{unique_col_names}
use db_query_optimizer.Common.{none, some, ℕ, Option, if◌then◌else◌}
use db_query_optimizer.Ir.{Plan}
use db_query_optimizer.Heap.{null_child, fails, Cmd, pure, ◌>>=◌, ◌>>◌}
use db_query_optimizer.Pipeline.{
  ClientConfiguration, MaterializeOptTypes, fill_materializes_type, put_late_materialization_type,
  put_late_materializations_hybrid_type,
}
use db_query_optimizer.Materialize.Late.{
  put_late_materialization_v2, put_late_materialization_hybrid,
}
use db_query_optimizer.Materialize.Fill.{fill_materializes}
use db_query_optimizer.Materialize.GrandChildren.{grand_children_optimization}

-- The `switch` on the kind of materialization.
unfoldable pub place_materializations : MaterializeOptTypes → Plan → Cmd (Option ℕ)
unfolding fill_materializes put_late_materialization_v2 put_late_materialization_hybrid
place_materializations fill_materializes_type p = fill_materializes p
place_materializations put_late_materialization_type p = put_late_materialization_v2 p
place_materializations put_late_materializations_hybrid_type p = put_late_materialization_hybrid p

unfoldable pub with_grand_children : ClientConfiguration → Option ℕ → Cmd (Unit {0})
unfolding grand_children_optimization
with_grand_children config root =
    if config.grand_child_opt then grand_children_optimization root else pure tt

-- From the plan of `optimize_plan` to the nodes that are renamed.
unfoldable pub materialize_plan : ClientConfiguration → Plan → Cmd (Option ℕ)
unfolding place_materializations with_grand_children
materialize_plan config p = do
  root ← place_materializations config.mat_type p
  with_grand_children config root
  pure root

-- `uniqueColNames(ir_root.get())`, which reads the root.
unfoldable pub rename_columns : Option ℕ → Cmd (Unit {0})
unfolding unique_col_names
rename_columns none = fails null_child
rename_columns (some a) = unique_col_names a

-- From the plan of `optimize_plan` to the nodes that become work items.
unfoldable pub prepare_plan : ClientConfiguration → Plan → Cmd (Option ℕ)
unfolding materialize_plan rename_columns
prepare_plan config p = do root ← materialize_plan config p; rename_columns root; pure root
