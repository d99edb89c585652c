-- ===== src/Names/Renamer.antt =====
-- `Renamer` and `uniqueColNames` of include/util/unique_col_names.hpp, over the heap of nodes. The
-- recursion goes to older nodes only, so its depth is at most the address of the root.
pub mod Ends
use db_query_optimizer.Common.{
  ℕ, zero, suc, Bool, true, false, Option, none, some, List, [], ◌∷◌, ◌++◌, ◌==◌, if◌then◌else◌,
}
use db_query_optimizer.Common.Text.{Text, text_eq}
use db_query_optimizer.Base.{TableColumn}
use db_query_optimizer.Ir.{IrData, OpInfo, fetch_op}
use db_query_optimizer.Heap.{
  PlanNode, plan_node, Cmd, pure, fails, out_of_fuel, no_input, ◌>>=◌, ◌>>◌, load, at, store,
}
use db_query_optimizer.Names.{next}

-- A map from strings: the order of its keys is read only where it does not count.
abbrev pub TextMap : Type 0 → Type 0
TextMap V = List (Text × V)

unfoldable pub lookup_text : {V : Type 0} → Text → TextMap V → Option V
unfolding text_eq
lookup_text k [] = none
lookup_text k ((l, v) ∷ m) = let rest = lookup_text k m in if text_eq k l then some v else rest

unfoldable pub assign_text : {V : Type 0} → Text → V → TextMap V → TextMap V
unfolding text_eq
assign_text k v [] = (k, v) ∷ []
assign_text k v ((l, w) ∷ m) =
    let rest = assign_text k v m in if text_eq k l then (l, v) ∷ m else (l, w) ∷ rest

-- The counter of the generator, and `nodeOutputRegistry`.
pub record Renamer : Type 0 where
  pub counter : ℕ
  pub registry : List (ℕ × TextMap Text)

unfoldable pub registered : ℕ → List (ℕ × TextMap Text) → Option (TextMap Text)
registered a [] = none
registered a ((b, m) ∷ r) = let rest = registered a r in if a == b then some m else rest

-- `inputCandidates[key].push_back(uniqueName)`, for each output of a child.
unfoldable pub add_candidate : Text → Text → TextMap (List Text) → TextMap (List Text)
unfolding lookup_text assign_text
add_candidate key name m = elim (lookup_text key m) [
  | some q ↦ assign_text key (q ++ name ∷ []) m
  | none ↦ assign_text key (name ∷ []) m
]

unfoldable pub add_candidates : TextMap Text → TextMap (List Text) → TextMap (List Text)
unfolding add_candidate
add_candidates [] m = m
add_candidates ((key, name) ∷ outputs) m = add_candidates outputs (add_candidate key name m)

-- The queue of a column after its front was taken: the last version stays.
unfoldable pub left_in_queue : Text → List Text → List Text
left_in_queue q [] = q ∷ []
left_in_queue q (r ∷ rest) = r ∷ rest

-- The inputs take the names of the children's outputs, first in first out.
unfoldable pub assign_inputs : List TableColumn → TextMap (List Text) → List TableColumn
unfolding lookup_text assign_text left_in_queue
assign_inputs [] m = []
assign_inputs (c ∷ cs) m = elim (lookup_text c.column_name m) [
  | none ↦ c ∷ assign_inputs cs m
  | some queue ↦ elim queue [
    | [] ↦ c ∷ assign_inputs cs m
    | q ∷ rest ↦
        record c { column_name = q }
        ∷ assign_inputs cs (assign_text c.column_name (left_in_queue q rest) m)
  ]
]

-- `if (!node->children.empty())`
unfoldable pub inputs_after : List ℕ → List TableColumn → TextMap (List Text) → List TableColumn
unfolding assign_inputs
inputs_after [] cs m = cs
inputs_after (b ∷ bs) cs m = assign_inputs cs m

-- The outputs get new names; with them the counter and `myOutputs`.
unfoldable pub name_outputs :
    List TableColumn → ℕ → TextMap Text → List TableColumn × ℕ × TextMap Text
unfolding next assign_text
name_outputs [] counter m = ([], counter, m)
name_outputs (c ∷ cs) counter m =
    let (name, later) = next counter c.column_name in
    let (renamed, last, outputs) = name_outputs cs later (assign_text c.column_name name m) in
    (record c { column_name = name } ∷ renamed, last, outputs)

unfoldable pub holds_fetch : OpInfo → Bool
holds_fetch (fetch_op op) = true
holds_fetch _ = false

abbrev pub with_columns : PlanNode → List TableColumn → List TableColumn → PlanNode
with_columns n inputs outputs =
    plan_node (record n.ir_data { input_columns = inputs; output_cols = outputs }) n.children

-- The end of `process`, when the children's outputs are collected.
unfoldable pub rename_node : ℕ → TextMap (List Text) → Renamer → Cmd (TextMap Text × Renamer)
unfolding load inputs_after name_outputs store
rename_node a candidates r = do
  n ← load a
  let named = name_outputs n.ir_data.output_cols r.counter []
  store a (with_columns n (inputs_after n.children n.ir_data.input_columns candidates) named.0)
  pure (named.2, record { counter = named.1; registry = (a, named.2) ∷ r.registry })

-- The loop over the children.
unfoldable pub collect_names :
    (ℕ → Renamer → Cmd (TextMap Text × Renamer))
    → List ℕ
    → TextMap (List Text)
    → Renamer
    → Cmd (TextMap (List Text) × Renamer)
unfolding add_candidates
collect_names process [] m r = pure (m, r)
collect_names process (c ∷ cs) m r = do
  done ← process c r
  collect_names process cs (add_candidates done.0 m) done.1

-- A fetch keeps its names, and is not cached.
unfoldable pub fetch_names : PlanNode → Renamer → Cmd (TextMap Text × Renamer)
unfolding at
fetch_names n r = do
  i ← at no_input n.ir_data.input_columns 0
  pure ((i.column_name, i.column_name) ∷ [], r)

-- `process(node)`
unfoldable pub process : ℕ → ℕ → Renamer → Cmd (TextMap Text × Renamer)
unfolding registered load holds_fetch fetch_names collect_names rename_node
process zero a r = fails out_of_fuel
process (suc fuel) a r = elim (registered a r.registry) [
  | some outputs ↦ pure (outputs, r)
  | none ↦ do
    n ← load a
    elim (holds_fetch n.ir_data.op_info) [
      | true ↦ fetch_names n r
      | false ↦ do
        found ← collect_names (process fuel) n.children [] r
        rename_node a found.0 found.1
    ]
]

-- `uniqueColNames(node)`
unfoldable pub unique_col_names : ℕ → Cmd (Unit {0})
unfolding process
unique_col_names a = do done ← process (suc a) a (record { counter = 0; registry = [] }); pure tt
