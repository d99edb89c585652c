-- ===== src/Names/Renamer/Ends.antt =====
-- About the renaming of a whole plan: how it ends, and what it keeps.
use db_query_optimizer.Heap.Replaced.{replace-map, node_at-returns}
use db_query_optimizer.Common.Text.{Text}
use db_query_optimizer.Common.{
  Option, ap₂, ◌∙◌, sym, subst, ==_iff, length-map, arith, inr, inl, Option-cases, ◌≤◌, ◌<◌, ◌==◌,
  Bool-cases, ap, All, map, ℕ, Bool, length, ◌≡◌, [], ◌∷◌, List, refl, some, true, false, zero, suc,
}
use db_query_optimizer.Base.{ColumnType, Table, TableColumn}
use db_query_optimizer.Ir.{OpInfo}
use db_query_optimizer.Heap.{
  no_input, ◌>>=◌, chain, store, Cmd, node_at, Heap, PlanNode, Run, ok, fault,
}
use db_query_optimizer.Heap.Valid.{
  load_eq, Ends-wider, Ends-chain, at_eq, get_elem-returns, Ends, returns, stops, Never,
}
use db_query_optimizer.Names.Renamer.{
  add_candidates, next, left_in_queue, assign_text, TextMap, Renamer, registered, assign_inputs,
  inputs_after, name_outputs, holds_fetch, with_columns, rename_node, collect_names, fetch_names,
  process, unique_col_names, lookup_text,
}

-- All of a column but its name.
pub record ColumnFrame : Type 0 where
  pub table : Table
  pub column_type : ColumnType
  pub alias : Option Text

abbrev pub column_frame : TableColumn → ColumnFrame
column_frame c = record { table = c.table; column_type = c.column_type; alias = c.alias }

abbrev unnamed : List TableColumn → List ColumnFrame
unnamed = map column_frame

assign_inputs-unnamed :
    (cs : List TableColumn) (m : TextMap (List Text)) → unnamed (assign_inputs cs m) ≡ unnamed cs
unfolding assign_inputs
assign_inputs-unnamed [] m = refl
assign_inputs-unnamed (c ∷ cs) m = elim (Option-cases (lookup_text c.column_name m)) [
  | inl e ↦ rw (assign_inputs, e) (ap (λ t. column_frame c ∷ t) (assign_inputs-unnamed cs m))
  | inr (queue, e) ↦ rw (assign_inputs, e) (by_queue queue (λ n. assign_inputs-unnamed cs n))
]
  where
    by_queue :
        (queue : List Text)
        → ((n : TextMap (List Text)) → unnamed (assign_inputs cs n) ≡ unnamed cs)
        → unnamed (elim queue as (λ _. List TableColumn) [
          | [] ↦ c ∷ assign_inputs cs m
          | q ∷ rest ↦
              record c { column_name = q }
              ∷ assign_inputs cs (assign_text c.column_name (left_in_queue q rest) m)
        ])
          ≡ unnamed (c ∷ cs)
    by_queue [] others = ap (λ t. column_frame c ∷ t) (others m)
    by_queue (q ∷ rest) others =
        ap (λ t. column_frame c ∷ t) (others (assign_text c.column_name (left_in_queue q rest) m))

inputs_after-unnamed :
    (bs : List ℕ) (cs : List TableColumn) (m : TextMap (List Text))
    → unnamed (inputs_after bs cs m) ≡ unnamed cs
unfolding inputs_after
inputs_after-unnamed [] cs m = refl
inputs_after-unnamed (b ∷ bs) cs m = assign_inputs-unnamed cs m

name_outputs-unnamed :
    (cs : List TableColumn) (counter : ℕ) (m : TextMap Text)
    → unnamed (name_outputs cs counter m).0 ≡ unnamed cs
unfolding name_outputs
name_outputs-unnamed [] counter m = refl
name_outputs-unnamed (c ∷ cs) counter m =
    ap (λ t. column_frame c ∷ t)
      (name_outputs-unnamed cs (next counter c.column_name).1
        (assign_text c.column_name (next counter c.column_name).0 m))

-- All of a node but its columns' names.
pub record Frame : Type 0 where
  pub op : OpInfo
  pub pos_list : Bool
  pub mat_vals : Bool
  pub inputs : List ColumnFrame
  pub outputs : List ColumnFrame
  pub children : List ℕ

abbrev pub frame : PlanNode → Frame
frame n = record {
  op = n.ir_data.op_info;
  pos_list = n.ir_data.outputs_pos_list;
  mat_vals = n.ir_data.outputs_mat_vals;
  inputs = unnamed n.ir_data.input_columns;
  outputs = unnamed n.ir_data.output_cols;
  children = n.children;
}

-- What the renaming asks of a node: its children are older, and a fetch has an input.
pub record IsRenamable (bound : ℕ) (f : Frame) : Type 0 where
  pub older : All (λ c. c < bound) f.children
  pub fed : holds_fetch f.op ≡ true → 1 ≤ length f.inputs

abbrev pub AreRenamable : List Frame → Type 0
AreRenamable [] = Unit
AreRenamable (f ∷ fs) = IsRenamable (length fs) f × AreRenamable fs

abbrev pub frames : Heap → List Frame
frames h = map frame h.nodes

node_at-IsRenamable :
    (ns : List PlanNode) (a : ℕ) (n : PlanNode)
    → AreRenamable (map frame ns)
    → node_at ns a ≡ some n
    → IsRenamable a (frame n)
unfolding node_at
node_at-IsRenamable [] a n h e = cc
node_at-IsRenamable (m ∷ ms) a n (h, hs) e = elim (Bool-cases (a == length ms)) [
  | inl t ↦
      let here : m ≡ n = ground arith in
      let address : length (map frame ms) ≡ a =
        omega (arith, length-map {B = Frame} ms frame, (==_iff a (length ms)).0 t) in
      subst (λ b. IsRenamable b (frame n)) address
        (subst (λ k. IsRenamable (length (map frame ms)) (frame k)) here h)
  | inr t ↦ node_at-IsRenamable ms a n hs (ground arith)
]

-- A run that ends, and keeps the frames.
abbrev pub Renames : {A : Type 0} → Heap → Run A → Type 0
Renames h = Ends (λ u k. frames k ≡ frames h) Never

frames-length : (h k : Heap) → frames k ≡ frames h → length k.nodes ≡ length h.nodes
frames-length h k e =
    omega (
      arith,
      length-map {B = Frame} k.nodes frame,
      length-map {B = Frame} h.nodes frame,
      ap length e,
    )

Renames-then :
    {A B : Type 0} (h : Heap) {r : Run A} {f : A → Heap → Run B}
    → Renames h r
    → ((x : A) (k : Heap) → frames k ≡ frames h → Renames k (f x k))
    → Renames h (chain r f)
Renames-then h s next =
    Ends-chain s (λ x k e. Ends-wider (next x k e) (λ y l e2. e2 ∙ e) (λ f l u. u))

rename_node-Renames :
    (a : ℕ) (m : TextMap (List Text)) (r : Renamer) (h : Heap)
    → a < length h.nodes
    → Renames h (rename_node a m r h)
unfolding rename_node store
rename_node-Renames a m r h lt =
    let (n, e) = node_at-returns h.nodes a lt in
    let named = name_outputs n.ir_data.output_cols r.counter [] in
    let inputs = inputs_after n.children n.ir_data.input_columns m in
    rw (rename_node, load_eq a h n e)
      (returns (
        replace-map frame h.nodes a n (with_columns n inputs named.0) e (
          ap₂
            (λ i o. record {
              op = n.ir_data.op_info;
              pos_list = n.ir_data.outputs_pos_list;
              mat_vals = n.ir_data.outputs_mat_vals;
              inputs = i;
              outputs = o;
              children = n.children;
            })
            (inputs_after-unnamed n.children n.ir_data.input_columns m)
            (name_outputs-unnamed n.ir_data.output_cols r.counter []))))

collect_names-Renames :
    (visit : ℕ → Renamer → Cmd (TextMap Text × Renamer)) (n : ℕ)
    → ((c : ℕ) (r : Renamer) (h : Heap)
        → AreRenamable (frames h)
        → c < n
        → n ≤ length h.nodes
        → Renames h (visit c r h))
    → (cs : List ℕ) (m : TextMap (List Text)) (r : Renamer) (h : Heap) → AreRenamable (frames h)
    → All (λ c. c < n) cs
    → n ≤ length h.nodes
    → Renames h (collect_names visit cs m r h)
unfolding collect_names
collect_names-Renames visit n each [] m r h ready lt le = returns refl
collect_names-Renames visit n each (c ∷ cs) m r h ready (lt, lts) le =
    Renames-then h (each c r h ready lt le) (λ done k e.
      collect_names-Renames visit n each cs (add_candidates done.0 m) done.1 k
        (subst AreRenamable (sym e) ready) lts (omega (arith, frames-length h k e)))

fetch_names-Renames :
    (n : PlanNode) (r : Renamer) (h : Heap)
    → 1 ≤ length (unnamed n.ir_data.input_columns)
    → Renames h (fetch_names n r h)
unfolding fetch_names
fetch_names-Renames n r h fed =
    let (i, e) =
      get_elem-returns n.ir_data.input_columns 0
        (omega (arith, length-map {B = ColumnFrame} n.ir_data.input_columns column_frame)) in
    rw (fetch_names, at_eq no_input n.ir_data.input_columns 0 h i e) (returns refl)

process-Renames :
    (fuel a : ℕ) (r : Renamer) (h : Heap)
    → AreRenamable (frames h)
    → a < fuel
    → a < length h.nodes
    → Renames h (process fuel a r h)
unfolding process
process-Renames zero a r h ready lt le = absurd (omega arith)
process-Renames (suc fuel) a r h ready lt le = elim (Option-cases (registered a r.registry)) [
  | inr (outputs, e) ↦ rw (process, e) (returns refl)
  | inl e ↦
      let (n, f) = node_at-returns h.nodes a le in
      let good = node_at-IsRenamable h.nodes a n ready f in
      let found =
        collect_names-Renames (process fuel) a
          (λ c s k all co ko. process-Renames fuel c s k all (omega arith) (omega arith)) n.children
          [] r h ready good.older (omega arith) in
      let renamed =
        Renames-then h {f = λ found. rename_node a found.0 found.1} found
          (λ x k same. rename_node-Renames a x.0 x.1 k (omega (arith, frames-length h k same))) in
      rw (process, e)
        (rw (load_eq a h n f) (
          by_fetch n (holds_fetch n.ir_data.op_info) (λ t. fetch_names-Renames n r h (good.fed t))
            renamed))
]
  where
    by_fetch :
        (n : PlanNode) (b : Bool)
        → (b ≡ true → Renames h (fetch_names n r h))
        → Renames h (
            chain
              (collect_names (process fuel) n.children [] r h)
              (λ found. rename_node a found.0 found.1))
        → Renames h (
            (elim b as (λ _. Cmd (TextMap Text × Renamer)) [
              | true ↦ fetch_names n r
              | false ↦ collect_names (process fuel) n.children [] r >>= λ found.
                  rename_node a found.0 found.1
            ])
              h)
    by_fetch n true fetch other = fetch refl
    by_fetch n false fetch other = other

no_fault :
    {A : Type 0} (h : Heap) (r : Run A)
    → Renames h r
    → (x : A) × (k : Heap) × (r ≡ ok x k) × (frames k ≡ frames h)
no_fault h (ok x k) (returns e) = (x, k, refl, e)
no_fault h (fault f k) (stops u) = absurd u

-- On a heap whose nodes have older children, and whose fetches have an input, the renaming ends
-- without a fault from any node, however nodes share children. Every node keeps its operator,
-- the kind of its output and its children, and each of its columns keeps its place, table, type and
-- alias: of all that a plan node's IR data holds, only the columns' names change.
pub unique_col_names-returns :
    (a : ℕ) (h : Heap)
    → AreRenamable (frames h)
    → a < length h.nodes
    → (k : Heap) × (unique_col_names a h ≡ ok tt k) × (frames k ≡ frames h)
unfolding unique_col_names
unique_col_names-returns a h ready lt =
    let (x, k, e, same) = no_fault h (process (suc a) a (record { counter = 0; registry = [] }) h) (
      process-Renames (suc a) a (record { counter = 0; registry = [] }) h ready (omega arith) lt) in
    (k, rw (unique_col_names, e) refl, same)
