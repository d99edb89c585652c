-- ===== src/Tests/Heaps.antt =====
-- The passes that share nodes, over the plan of a small star query.
use db_query_optimizer.Materialize.First.Returns.{put_late_materialization_first-Sound}
use db_query_optimizer.Materialize.First.{put_late_materialization}
use db_query_optimizer.Names.Renamer.{unique_col_names}
use db_query_optimizer.Names.Renamer.Ends.{unique_col_names-returns, frames, AreRenamable}
use db_query_optimizer.Pipeline.Prepared.{prepare_plan-ends, PlanEnds}
use db_query_optimizer.Pipeline.MaterializePlan.{prepare_plan, place_materializations}
use db_query_optimizer.Tests.Translation.{all_passes}
use db_query_optimizer.Heap.FilterCol.Found.{det_filter_col_idx-returns}
use db_query_optimizer.Materialize.Fill.Sound.{fill_materializes-Sound}
use db_query_optimizer.Materialize.Late.Sound.{put_late_materialization-Sound, IsRoot}
use db_query_optimizer.Heap.FilterCol.{det_filter_col_idx}
use db_query_optimizer.Materialize.GrandChildren.Returns.{grand_children_optimization-returns}
use db_query_optimizer.Heap.Valid.{Unprovided, ListFault, Sound}
use db_query_optimizer.Materialize.GrandChildren.{grand_children_optimization}
use db_query_optimizer.Materialize.GrandChildren.Kept.{Kept, IsComplete}
use db_query_optimizer.Materialize.Late.{
  put_late_materialization_v2, put_late_materialization_hybrid,
}
use db_query_optimizer.Materialize.Fill.{fill_materializes}
use db_query_optimizer.Materialize.Whole.{IsWhole}
use db_query_optimizer.Common.{
  ◌<◌, arith, length, ◌≡◌, ℕ, Option, [], ◌∷◌, List, refl, none, some, true, false,
}
use db_query_optimizer.Common.Text.{text_eq, text_lt}
use db_query_optimizer.Base.{
  make_table, column_lt, table_lt, column_eq, TableColumn, comp_eq, inner_join,
}
use db_query_optimizer.Ir.{select_op, Plan, node, nil, cons}
use db_query_optimizer.Ir.JoinView
use db_query_optimizer.Ir.FetchView
use db_query_optimizer.Ir.GroupView
use db_query_optimizer.Ir.MaterializeView
use db_query_optimizer.Heap.{
  PlanNode, plan_node, Fault, node_at, no_list_column, Heap, Run, ok, fault,
}
use db_query_optimizer.Tests.Samples.{lo_custkey, lo_revenue, c_custkey, plain_node}

abbrev empty_heap : Heap
empty_heap = record { nodes = []; missing = [] }

abbrev table_node : TableColumn → Plan
table_node c = node (plain_node (FetchView.create c true)) nil

-- The join's inputs are the tables' key columns; the selection wants the revenue.
abbrev key_join : Plan
key_join =
    node (plain_node (JoinView.create c_custkey lo_custkey lo_custkey inner_join comp_eq))
      (cons (table_node c_custkey) (cons (table_node lo_custkey) nil))

abbrev revenue_query : Plan
revenue_query =
    node
      (plain_node (record {
        input_columns = lo_revenue ∷ [];
        output_cols = lo_revenue ∷ [];
        outputs_pos_list = true;
        outputs_mat_vals = false;
        op_info = select_op (record { result_idx = none; result_headers = [] });
      }))
      (cons key_join nil)

revenue_query-IsWhole : IsWhole revenue_query
unfolding JoinView.create FetchView.create
revenue_query-IsWhole = (
  (refl, omega arith),
  (
    (
      (((refl, refl)), omega arith),
      ((((refl, refl), omega arith), tt), ((((refl, refl), omega arith), tt), tt)),
    ),
    tt,
  ),
)

-- How many nodes a run leaves, and how many columns it reports missing.
abbrev sizes : Run (Option ℕ) → Option (ℕ × ℕ)
sizes (ok r k) = some (length k.nodes, length k.missing)
sizes (fault f k) = none

fill_sizes : sizes (fill_materializes revenue_query empty_heap) ≡ some (8, 0)
unfolding fill_materializes JoinView.create column_lt text_lt table_lt
fill_sizes = refl

late_sizes : sizes (put_late_materialization_v2 revenue_query empty_heap) ≡ some (6, 0)
unfolding put_late_materialization_v2 JoinView.create column_lt text_lt table_lt
late_sizes = refl

hybrid_sizes : sizes (put_late_materialization_hybrid revenue_query empty_heap) ≡ some (6, 0)
unfolding put_late_materialization_hybrid JoinView.create column_lt text_lt table_lt
hybrid_sizes = refl

-- A group over a bare table, and a selection of the grouping column: the group is kept as the
-- table's position list, although no output of the group is a column of the table.
abbrev group_query : Plan
group_query =
    node
      (plain_node (record {
        input_columns = lo_custkey ∷ [];
        output_cols = lo_custkey ∷ [];
        outputs_pos_list = true;
        outputs_mat_vals = false;
        op_info = select_op (record { result_idx = none; result_headers = [] });
      }))
      (cons
        (node
          (plain_node
            (GroupView.create (lo_custkey ∷ []) (GroupView.generate_out_col (lo_custkey ∷ []))))
          (cons (table_node lo_custkey) nil))
        nil)

abbrev fault_of : Run (Option ℕ) → Option Fault
fault_of (ok r k) = none
fault_of (fault f k) = some f

group_query_faults :
    fault_of (put_late_materialization_v2 group_query empty_heap) ≡ some no_list_column
unfolding put_late_materialization_v2 GroupView.create GroupView.generate_out_col column_lt text_lt
    table_lt make_table
group_query_faults = refl

-- A materialization of values through a materialized position list of a join.
abbrev shared_heap : Heap
shared_heap = record {
  nodes =
      plan_node (MaterializeView.create lo_custkey lo_custkey lo_custkey false) (3 ∷ 4 ∷ [])
      ∷ plan_node (MaterializeView.create lo_custkey lo_custkey lo_custkey true) (1 ∷ 2 ∷ [])
      ∷ plan_node (FetchView.create lo_custkey false) []
      ∷ plan_node (JoinView.create c_custkey lo_custkey lo_custkey inner_join comp_eq) (0 ∷ 1 ∷ [])
      ∷ plan_node (FetchView.create lo_custkey true) []
      ∷ plan_node (FetchView.create c_custkey true) []
      ∷ [];
  missing = [];
}

shared_heap-IsComplete : IsComplete shared_heap
unfolding MaterializeView.create FetchView.create JoinView.create
shared_heap-IsComplete = (
  (
    record {
      shape = (refl, refl);
      outputs = omega arith;
      older = (omega arith, (omega arith, tt));
      wired = refl;
    },
    (
      record {
        shape = (refl, refl);
        outputs = omega arith;
        older = (omega arith, (omega arith, tt));
        wired = refl;
      },
      (
        record { shape = (refl, refl); outputs = omega arith; older = tt; wired = tt },
        (
          record {
            shape = (refl, refl);
            outputs = omega arith;
            older = (omega arith, (omega arith, tt));
            wired = refl;
          },
          (
            record { shape = (refl, refl); outputs = omega arith; older = tt; wired = tt },
            (record { shape = (refl, refl); outputs = omega arith; older = tt; wired = tt }, tt),
          ),
        ),
      ),
    ),
  ),
  refl,
)

abbrev children_of : Run Unit → ℕ → Option (List ℕ)
children_of (ok u k) a = elim (node_at k.nodes a) [ some n ↦ some n.children | none ↦ none ]
children_of (fault f k) a = none

rewired_children :
    children_of (grand_children_optimization (some 5) shared_heap) 5 ≡ some (1 ∷ 2 ∷ [])
unfolding grand_children_optimization MaterializeView.create JoinView.create FetchView.create
    node_at column_eq text_eq
rewired_children = refl

det_filter_col_idx-returns_example :
    (i : ℕ) × (n : PlanNode) × (node_at shared_heap.nodes 2 ≡ some n)
    × (det_filter_col_idx lo_revenue 2 shared_heap ≡ ok i shared_heap)
    × (i < length n.ir_data.output_cols)
det_filter_col_idx-returns_example =
    det_filter_col_idx-returns lo_revenue 2 shared_heap shared_heap-IsComplete.0 refl (omega arith)

grand_children_optimization-returns_example :
    (k : Heap) × (grand_children_optimization (some 5) shared_heap ≡ ok tt k) × Kept shared_heap k
grand_children_optimization-returns_example =
    grand_children_optimization-returns 5 shared_heap shared_heap-IsComplete (omega arith)

fill_materializes-Sound_example :
    Sound Unprovided empty_heap IsRoot (fill_materializes revenue_query empty_heap)
fill_materializes-Sound_example =
    fill_materializes-Sound revenue_query empty_heap revenue_query-IsWhole tt

put_late_materialization-Sound_example :
    Sound ListFault empty_heap IsRoot (put_late_materialization_v2 revenue_query empty_heap)
    × Sound ListFault empty_heap IsRoot (put_late_materialization_hybrid revenue_query empty_heap)
put_late_materialization-Sound_example =
    put_late_materialization-Sound revenue_query empty_heap revenue_query-IsWhole tt

prepare_plan-ends_example :
    PlanEnds all_passes.mat_type
      (place_materializations all_passes.mat_type revenue_query empty_heap)
      (prepare_plan all_passes revenue_query empty_heap)
prepare_plan-ends_example =
    prepare_plan-ends all_passes revenue_query empty_heap revenue_query-IsWhole tt

shared_heap-AreRenamable : AreRenamable (frames shared_heap)
unfolding MaterializeView.create FetchView.create JoinView.create
shared_heap-AreRenamable = (
  record { older = (omega arith, (omega arith, tt)); fed = λ t. omega arith },
  (
    record { older = (omega arith, (omega arith, tt)); fed = λ t. omega arith },
    (
      record { older = tt; fed = λ t. omega arith },
      (
        record { older = (omega arith, (omega arith, tt)); fed = λ t. omega arith },
        (
          record { older = tt; fed = λ t. omega arith },
          (record { older = tt; fed = λ t. omega arith }, tt),
        ),
      ),
    ),
  ),
)

unique_col_names-returns_example :
    (k : Heap) × (unique_col_names 5 shared_heap ≡ ok tt k) × (frames k ≡ frames shared_heap)
unique_col_names-returns_example =
    unique_col_names-returns 5 shared_heap shared_heap-AreRenamable (omega arith)

put_late_materialization_first-Sound_example :
    Sound ListFault empty_heap IsRoot (put_late_materialization revenue_query empty_heap)
put_late_materialization_first-Sound_example =
    put_late_materialization_first-Sound revenue_query empty_heap revenue_query-IsWhole tt
