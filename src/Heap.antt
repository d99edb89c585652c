-- ===== src/Heap.antt =====
-- The nodes of include/ir/plan_node.hpp once plans share them, and programs over them. A node's
-- address is the number of nodes that were made before it.
pub mod FilterCol
pub mod Valid
pub mod Replaced
use db_query_optimizer.Common.{
  ℕ, Option, none, some, List, [], ◌∷◌, length, get_elem?, ◌==◌, if◌then◌else◌,
}
use db_query_optimizer.Base.{TableColumn}
use db_query_optimizer.Ir.{IrData}

-- A `PlanNode`: its plan data and the addresses of its children. The data of the earlier stages is
-- read by none of the passes over the heap.
pub record PlanNode : Type 0 where
  pub ir_data : IrData
  pub children : List ℕ

abbrev pub plan_node : IrData → List ℕ → PlanNode
plan_node d cs = record { ir_data = d; children = cs }

-- The nodes, the last one first, and the columns that error messages were printed about.
pub record Heap : Type 0 where
  pub nodes : List PlanNode
  pub missing : List TableColumn

-- What undefined behaviour a run has met: a null child, an address that holds no node, a vector
-- read out of range, or the front of an empty range.
pub data Fault : Type 0 where
  null_child no_node no_input no_output no_child no_list_column out_of_fuel : Fault

-- How a run over the heap comes out, with the heap that it leaves.
pub data Run (A : Type 0) : Type 0 where
  fault : Fault → Heap → Run A
  ok : A → Heap → Run A

-- A program over the heap.
abbrev pub Cmd : Type 0 → Type 0
Cmd A = Heap → Run A

abbrev pub pure : {A : Type 0} → A → Heap → Run A
pure x h = ok x h

abbrev pub fails : {A : Type 0} → Fault → Heap → Run A
fails f h = fault f h

-- A fault ends the whole program.
abbrev pub chain : {A B : Type 0} → Run A → (A → Heap → Run B) → Run B
chain (fault f h) next = fault f h
chain (ok x h) next = next x h

infixl 10 ◌>>=◌
abbrev pub ◌>>=◌ : {A B : Type 0} → (Heap → Run A) → (A → Heap → Run B) → Heap → Run B
(first >>= next) h = chain (first h) next

infixl 10 ◌>>◌
abbrev pub ◌>>◌ : {A B : Type 0} → (Heap → Run A) → (Heap → Run B) → Heap → Run B
(first >> next) h = chain (first h) (λ x. next)

-- The node at an address.
unfoldable pub node_at : List PlanNode → ℕ → Option PlanNode
node_at [] a = none
node_at (n ∷ ns) a = if a == length ns then some n else node_at ns a

-- `*p`
unfoldable pub load : ℕ → Cmd PlanNode
unfolding node_at
load a h = elim (node_at h.nodes a) [ none ↦ fault no_node h | some n ↦ ok n h ]

-- `std::make_shared<PlanNode>()` with the data and the children that it is given at once.
unfoldable pub alloc : PlanNode → Cmd ℕ
alloc n h = ok (length h.nodes) (record h { nodes = n ∷ h.nodes })

-- The line that is printed for a column that nothing provides.
unfoldable pub report : TableColumn → Cmd (Unit {0})
report c h = ok tt (record h { missing = c ∷ h.missing })

-- `v[i]`, with the fault that an index out of range is.
unfoldable pub at : {A : Type 0} → Fault → List A → ℕ → Cmd A
at f xs i h = elim (get_elem? xs i) [ none ↦ fault f h | some x ↦ ok x h ]

-- A node in the place of an older one, and `*p = n`.
unfoldable pub replace_node : List PlanNode → ℕ → PlanNode → List PlanNode
replace_node [] a n = []
replace_node (m ∷ ms) a n =
    let rest = replace_node ms a n in if a == length ms then n ∷ ms else m ∷ rest

unfoldable pub store : ℕ → PlanNode → Cmd (Unit {0})
unfolding replace_node
store a n h = ok tt (record h { nodes = replace_node h.nodes a n })
