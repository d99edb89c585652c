-- ===== src/Heap/Valid.antt =====
-- About heaps on which every node has its shape and its children, and runs over them.
use db_query_optimizer.Common.{
  ℕ, zero, suc, ◌≤◌, ◌<◌, some, List, [], ◌∷◌, length, All, ◌≡◌, arith, refl, subst, ◌==◌,
  get_elem?, Bool-cases, inl, inr,
}
use db_query_optimizer.Base.{TableColumn}
use db_query_optimizer.Ir.{OpInfo, fetch_op}
use db_query_optimizer.Ir.Shape.{IsShaped}
use db_query_optimizer.Heap.{
  report, alloc, PlanNode, Heap, Fault, no_child, no_list_column, Run, ok, fault, Cmd, chain,
  node_at, load, at,
}

-- A node has a child for each of its inputs, unless it is a fetch.
abbrev pub OpIsWired : OpInfo → List TableColumn → List ℕ → Type 0
OpIsWired (fetch_op op) inputs children = Unit
OpIsWired _ inputs children = length children ≡ length inputs

-- A node is wired unless a missing column has been reported.
abbrev pub IsWiredUnless : List TableColumn → PlanNode → Type 0
IsWiredUnless [] n = OpIsWired n.ir_data.op_info n.ir_data.input_columns n.children
IsWiredUnless (c ∷ cs) n = Unit

-- The node has its operator's shape and an output, its children are older nodes, and it is wired
-- unless a missing column has been reported.
pub record IsNode (missing : List TableColumn) (bound : ℕ) (n : PlanNode) : Type 0 where
  pub shape : IsShaped n.ir_data
  pub outputs : 1 ≤ length n.ir_data.output_cols
  pub older : All (λ c. c < bound) n.children
  pub wired : IsWiredUnless missing n

abbrev pub AreNodes : List TableColumn → List PlanNode → Type 0
AreNodes missing [] = Unit
AreNodes missing (n ∷ ns) = IsNode missing (length ns) n × AreNodes missing ns

abbrev pub IsHeap : Heap → Type 0
IsHeap h = AreNodes h.missing h.nodes

pub node_at-IsNode :
    (missing : List TableColumn) (ns : List PlanNode) (a : ℕ)
    → AreNodes missing ns
    → a < length ns
    → (n : PlanNode) × (node_at ns a ≡ some n) × IsNode missing a n
unfolding node_at
node_at-IsNode missing [] a h lt = absurd (omega arith)
node_at-IsNode missing (n ∷ ns) a (h, hs) lt = elim (Bool-cases (a == length ns)) [
  | inl e ↦ (n, rw (node_at, e) refl, subst (λ b. IsNode missing b n) (ground arith) h)
  | inr e ↦
      let (m, f, k) = node_at-IsNode missing ns a hs (ground arith) in (m, rw (node_at, e) f, k)
]

pub AreNodes-report :
    (missing : List TableColumn) (c : TableColumn) (ns : List PlanNode)
    → AreNodes missing ns
    → AreNodes (c ∷ missing) ns
AreNodes-report missing c [] h = tt
AreNodes-report missing c (n ∷ ns) (h, hs) = (
  record { shape = h.shape; outputs = h.outputs; older = h.older; wired = tt },
  AreNodes-report missing c ns hs,
)

-- A join that a column was reported missing for has no second child.
pub data Unprovided : Fault → List TableColumn → Type 0 where
  unprovided : {c : TableColumn} {cs : List TableColumn} → Unprovided no_child (c ∷ cs)

-- The same, or a node that is kept as a table's position list has no column of the table.
pub data ListFault : Fault → List TableColumn → Type 0 where
  of_unprovided : {f : Fault} {cs : List TableColumn} → Unprovided f cs → ListFault f cs
  end_read : {cs : List TableColumn} → ListFault no_list_column cs

-- A run ends with a value and a heap that `P` holds of, or with a fault that `F` holds of.
pub data Ends {A : Type 0} (P : A → Heap → Type 0) (F : Fault → Heap → Type 0)
    : Run A → Type 0 where
  returns : {a : A} {h : Heap} → P a h → Ends P F (ok a h)
  stops : {f : Fault} {h : Heap} → F f h → Ends P F (fault f h)

-- No fault.
abbrev pub Never : Fault → Heap → Type 0
Never f h = ⊥

-- Nodes are only added, and so are reports.
abbrev pub Grown : Heap → Heap → Type 0
Grown h k = (length h.nodes ≤ length k.nodes) × (length h.missing ≤ length k.missing)

pub Grown-refl : (h : Heap) → Grown h h
Grown-refl h = (omega arith, omega arith)

pub Grown-trans : (h k l : Heap) → Grown h k → Grown k l → Grown h l
Grown-trans h k l a b = (omega (arith, a.0, b.0), omega (arith, a.1, b.1))

-- A run from `h` that only adds nodes, keeps the heap valid and gives what `P` says, or else stops
-- with a fault that `F` holds of and the missing columns.
pub data Sound {A : Type 0} (F : Fault → List TableColumn → Type 0) (h : Heap)
    (P : A → Heap → Type 0) : Run A → Type 0 where
  sound : {a : A} {k : Heap} → IsHeap k → Grown h k → P a k → Sound F h P (ok a k)
  unsound : {f : Fault} {k : Heap} → F f k.missing → Sound F h P (fault f k)

-- Where a run does what `F` and `P` say, a continuation that ends well from there ends well after it.
pub Ends-chain :
    {A B : Type 0} {F : Fault → Heap → Type 0} {P : A → Heap → Type 0} {Q : B → Heap → Type 0}
    {first : Run A} {next : A → Heap → Run B}
    → Ends P F first
    → ((x : A) (left : Heap) → P x left → Ends Q F (next x left))
    → Ends Q F (chain first next)
Ends-chain (stops f) later = stops f
Ends-chain (returns {a = x} {h = left} p) later = later x left p

-- Both conditions may be replaced by weaker ones.
pub Ends-wider :
    {A : Type 0} {F G : Fault → Heap → Type 0} {P Q : A → Heap → Type 0} {run : Run A}
    → Ends P F run
    → ((x : A) (left : Heap) → P x left → Q x left)
    → ((f : Fault) (left : Heap) → F f left → G f left)
    → Ends Q G run
Ends-wider (stops f) values faults = stops (faults _ _ f)
Ends-wider (returns p) values faults = returns (values _ _ p)

pub load_eq : (a : ℕ) (h : Heap) (n : PlanNode) → node_at h.nodes a ≡ some n → load a h ≡ ok n h
unfolding load
load_eq a h n e = rw (load, e) refl

pub at_eq :
    {A : Type 0} (f : Fault) (xs : List A) (i : ℕ) (h : Heap) (x : A)
    → get_elem? xs i ≡ some x
    → at f xs i h ≡ ok x h
unfolding at
at_eq f xs i h x e = rw (at, e) refl

pub get_elem-returns :
    {A : Type 0} (xs : List A) (i : ℕ) → i < length xs → (x : A) × (get_elem? xs i ≡ some x)
get_elem-returns [] i h = absurd (omega arith)
get_elem-returns (x ∷ xs) zero h = (x, refl)
get_elem-returns (x ∷ xs) (suc i) h = get_elem-returns xs i (omega arith)

-- One sound run after another.
pub step :
    {A B : Type 0} {F : Fault → List TableColumn → Type 0} {h : Heap} {P : A → Heap → Type 0}
    {Q : B → Heap → Type 0} {r : Run A} {f : A → Cmd B}
    → Sound F h P r
    → ((a : A) (k : Heap) → IsHeap k → Grown h k → P a k → Sound F k Q (f a k))
    → Sound F h Q (chain r f)
step (unsound u) next = unsound u
step {B = B} {F = F} {h = h} {Q = Q} (sound {k = k} valid le p) next = later (next _ _ valid le p)
  where
    later : {r : Run B} → Sound F k Q r → Sound F h Q r
    later (sound v le2 q) = sound v (Grown-trans _ _ _ le le2) q
    later (unsound u) = unsound u

-- A node that is wired whatever is missing.
pub wired_always :
    (missing : List TableColumn) (n : PlanNode)
    → OpIsWired n.ir_data.op_info n.ir_data.input_columns n.children
    → IsWiredUnless missing n
wired_always [] n w = w
wired_always (c ∷ cs) n w = tt

pub alloc-Sound :
    {F : Fault → List TableColumn → Type 0} (n : PlanNode) (h : Heap)
    → IsHeap h
    → IsNode h.missing (length h.nodes) n
    → Sound F h (λ a k. a < length k.nodes) (alloc n h)
unfolding alloc
alloc-Sound n h valid new = sound (new, valid) (omega arith, omega arith) (omega arith)

pub report-Sound :
    {F : Fault → List TableColumn → Type 0} (c : TableColumn) (h : Heap)
    → IsHeap h
    → Sound F h (λ u k. 1 ≤ length k.missing) (report c h)
unfolding report
report-Sound c h valid =
    sound (AreNodes-report h.missing c h.nodes valid) (omega arith, omega arith) (omega arith)

pub weaken :
    {A : Type 0} {F : Fault → List TableColumn → Type 0} {h : Heap} {P Q : A → Heap → Type 0}
    {r : Run A}
    → Sound F h P r
    → ((a : A) (k : Heap) → P a k → Q a k)
    → Sound F h Q r
weaken (sound valid le p) wider = sound valid le (wider _ _ p)
weaken (unsound u) wider = unsound u

-- A node that is wired if nothing is missing.
pub wired_if :
    (missing : List TableColumn) (n : PlanNode)
    → (length missing ≡ 0 → OpIsWired n.ir_data.op_info n.ir_data.input_columns n.children)
    → IsWiredUnless missing n
wired_if [] n w = w refl
wired_if (c ∷ cs) n w = tt

-- The same where what the run did to the heap counts.
pub refine :
    {A : Type 0} {F : Fault → List TableColumn → Type 0} {h : Heap} {P Q : A → Heap → Type 0}
    {r : Run A}
    → Sound F h P r
    → ((a : A) (k : Heap) → Grown h k → P a k → Q a k)
    → Sound F h Q r
refine (sound valid le p) wider = sound valid le (wider _ _ le p)
refine (unsound u) wider = unsound u
