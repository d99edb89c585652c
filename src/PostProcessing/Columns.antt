-- ===== src/PostProcessing/Columns.antt =====
-- About the column setup: the shapes of the plan's nodes.
use db_query_optimizer.Common.{suc, List, map, length-map, ◌≡◌, refl, arith, ap, ◌∙◌}
use db_query_optimizer.Base.{TableColumn}
use db_query_optimizer.Ir.{
  OpInfo, monostate, join_op, semi_join_op, group_op, fetch_op, agg_op, filter_op, sort_op, map_op,
  set_op, select_op, mat_op, Plan, Plans, null, node, nil, cons,
}
use db_query_optimizer.Ir.Shape.{OpShape}
use db_query_optimizer.Optimizations.AggMove.Count.{IsReady, AreReady, OpIsFed, plan_count}
use db_query_optimizer.PostProcessing.{
  Aliases, apply_alias, set_up_data, ensure_correct_column_setup, set_up_children, collect,
  aliases_for,
}

shape_maps :
    (i : OpInfo) (f : TableColumn → TableColumn) (xs ys : List TableColumn)
    → OpShape i xs ys
    → OpShape i (map f xs) (map f ys)
shape_maps (select_op op) f xs ys h = ap (map f) h
shape_maps monostate f xs ys h = tt
shape_maps (join_op op) f xs ys h = (length-map xs f ∙ h.0, length-map ys f ∙ h.1)
shape_maps (semi_join_op op) f xs ys h = (length-map xs f ∙ h.0, length-map ys f ∙ h.1)
shape_maps (group_op op) f xs ys h = (length-map xs f ∙ h.0, length-map ys f ∙ h.1)
shape_maps (fetch_op op) f xs ys h = (length-map xs f ∙ h.0, length-map ys f ∙ h.1)
shape_maps (agg_op op) f xs ys h = (length-map xs f ∙ h.0, length-map ys f ∙ h.1)
shape_maps (sort_op op) f xs ys h = (length-map xs f ∙ h.0, length-map ys f ∙ h.1)
shape_maps (set_op op) f xs ys h = (length-map xs f ∙ h.0, length-map ys f ∙ h.1)
shape_maps mat_op f xs ys h = (length-map xs f ∙ h.0, length-map ys f ∙ h.1)
shape_maps (filter_op op) f xs ys h =
    (omega (arith, length-map xs f), omega (arith, length-map xs f), length-map ys f ∙ h.2)
shape_maps (map_op op) f xs ys h =
    (omega (arith, length-map xs f), omega (arith, length-map xs f), length-map ys f ∙ h.2)

set_up_children-count :
    (cs : Plans) (aliases : Aliases) → plan_count (set_up_children cs aliases) ≡ plan_count cs
unfolding set_up_children
set_up_children-count nil aliases = refl
set_up_children-count (cons p ps) aliases = ap suc (set_up_children-count ps aliases)

pub fed_again :
    (i : OpInfo) (cs qs : Plans) → plan_count qs ≡ plan_count cs → OpIsFed i cs → OpIsFed i qs
fed_again (agg_op op) cs qs e h = e ∙ h
fed_again _ cs qs e h = tt

mutual
  unfolding ensure_correct_column_setup set_up_data

  setup-IsReady :
      (p : Plan) (aliases : Aliases) → IsReady p → IsReady (ensure_correct_column_setup p aliases)
  setup-IsReady null aliases h = tt
  setup-IsReady (node d cs) aliases ((shape, plain), fed, hs) = (
    (
      shape_maps d.ir_data.op_info (apply_alias (collect d.ir_data aliases)) d.ir_data.input_columns
          d.ir_data.output_cols shape,
      plain,
    ),
    fed_again d.ir_data.op_info cs (set_up_children cs (collect d.ir_data aliases))
        (set_up_children-count cs (collect d.ir_data aliases)) fed,
    children-AreReady cs (collect d.ir_data aliases) hs,
  )

  children-AreReady :
      (cs : Plans) (aliases : Aliases) → AreReady cs → AreReady (set_up_children cs aliases)
  children-AreReady nil aliases h = tt
  children-AreReady (cons p ps) aliases (h, hs) =
      (setup-IsReady p (aliases_for p aliases) h, children-AreReady ps aliases hs)

-- On a plan as the optimizations take it, the column setup gives one that they take.
pub ensure_correct_column_setup-IsReady :
    (p : Plan) (aliases : Aliases) → IsReady p → IsReady (ensure_correct_column_setup p aliases)
ensure_correct_column_setup-IsReady = setup-IsReady
