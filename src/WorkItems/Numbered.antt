-- ===== src/WorkItems/Numbered.antt =====
-- The numbers of the work items.
use db_query_optimizer.Common.{
  ℕ, suc, ◌+◌, ◌≤◌, ◌<◌, ◌%◌, ◌^◌, List, [], ◌∷◌, ◌++◌, length, length-append, ◌≡◌, refl, arith,
}
use db_query_optimizer.WorkItems.Messages.{WorkItem, ApiData, empty, semi_join}
use db_query_optimizer.WorkItems.Builder.{pushed, item_for, items_from, create_work_items}

-- The nodes that no item is made for: the semi-joins, and those without data.
abbrev pub dropped : List ApiData → ℕ
dropped [] = 0
dropped (semi_join n ∷ nodes) = suc (dropped nodes)
dropped (empty ∷ nodes) = suc (dropped nodes)
dropped (_ ∷ nodes) = dropped nodes

-- The items are of the plan, and their numbers go up, above `lo` and not above `hi`.
abbrev pub AreNumbered : ℕ → ℕ → ℕ → List WorkItem → Type 0
AreNumbered plan_id lo hi [] = Unit
AreNumbered plan_id lo hi (w ∷ ws) =
    (w.plan_id ≡ plan_id)
    × (lo < w.item_id)
    × (w.item_id ≤ hi)
    × AreNumbered plan_id w.item_id hi ws

weaken :
    (plan_id lo lo' hi : ℕ) (ws : List WorkItem)
    → lo' ≤ lo
    → AreNumbered plan_id lo hi ws
    → AreNumbered plan_id lo' hi ws
weaken plan_id lo lo' hi [] le h = tt
weaken plan_id lo lo' hi (w ∷ ws) le (p, l, u, hs) = (p, omega arith, u, hs)

-- At most one item is made for a node, with the node's number.
abbrev ForNode : ℕ → ℕ → List WorkItem → Type 0
ForNode plan_id item_id [] = Unit
ForNode plan_id item_id (w ∷ ws) =
    (w.plan_id ≡ plan_id % 2 ^ 32) × (w.item_id ≡ item_id) × (ws ≡ [])

mod_lem : (n : ℕ) → n < 2 ^ 31 → n % 2 ^ 32 ≡ n
mod_lem n h = omega arith

item_for_lem :
    (n : ApiData) (nodes : List ApiData) (item_id plan_id s : ℕ)
    → item_id < 2 ^ 31
    → ForNode plan_id item_id (item_for n item_id plan_id s).0
      × (length (item_for n item_id plan_id s).0 + dropped (n ∷ nodes) ≡ suc (dropped nodes))
unfolding item_for pushed
item_for_lem empty nodes item_id plan_id s h = (tt, omega arith)
item_for_lem (semi_join n) nodes item_id plan_id s h = (tt, omega arith)
item_for_lem _ nodes item_id plan_id s h = ((refl, mod_lem item_id h, refl), omega arith)

join_numbered :
    (plan_id item_id hi : ℕ) (here rest : List WorkItem)
    → ForNode plan_id (suc item_id) here
    → suc item_id ≤ hi
    → AreNumbered (plan_id % 2 ^ 32) (suc item_id) hi rest
    → AreNumbered (plan_id % 2 ^ 32) item_id hi (here ++ rest)
join_numbered plan_id item_id hi [] rest h le k =
    weaken (plan_id % 2 ^ 32) (suc item_id) item_id hi rest (omega arith) k
join_numbered plan_id item_id hi (w ∷ ws) rest (p, i, e) le k =
    rw e (p, omega arith, omega arith, rw i k)

length_lem :
    (xs ys : List WorkItem) (k l m : ℕ)
    → length xs + l ≡ suc k
    → length ys + k ≡ m
    → length (xs ++ ys) + l ≡ suc m
length_lem xs ys k l m h e = omega (arith, length-append xs ys)

items_from_lem :
    (nodes : List ApiData) (item_id plan_id s hi : ℕ)
    → item_id + length nodes ≤ hi
    → hi < 2 ^ 31
    → AreNumbered (plan_id % 2 ^ 32) item_id hi (items_from nodes (suc item_id) plan_id s).0
      × (length (items_from nodes (suc item_id) plan_id s).0 + dropped nodes ≡ length nodes)
unfolding items_from
items_from_lem [] item_id plan_id s hi h k = (tt, omega arith)
items_from_lem (n ∷ nodes) item_id plan_id s hi h k =
    let here = item_for n (suc item_id) plan_id s in
    let rest = (items_from nodes (suc (suc item_id)) plan_id here.1).0 in
    let (numbered, count) = item_for_lem n nodes (suc item_id) plan_id s (omega arith) in
    let (numbered', count') =
      items_from_lem nodes (suc item_id) plan_id here.1 hi (omega arith) k in
    (
      join_numbered plan_id item_id hi here.0 rest numbered (omega arith) numbered',
      length_lem here.0 rest (dropped nodes) (dropped (n ∷ nodes)) (length nodes) count count',
    )

-- For fewer than 2^31 nodes, the work items are of the plan, their numbers go up from 1 and are at
-- most the number of nodes, whatever the builder's counter is, and there is one item for each
-- node but the semi-joins and the nodes without data.
pub create_work_items-AreNumbered :
    (nodes : List ApiData) (plan_id current_item_id : ℕ)
    → length nodes < 2 ^ 31
    → AreNumbered
        (plan_id % 2 ^ 32)
        0
        (length nodes)
        (create_work_items nodes plan_id current_item_id).0
      × (length (create_work_items nodes plan_id current_item_id).0 + dropped nodes ≡ length nodes)
unfolding create_work_items
create_work_items-AreNumbered nodes plan_id current_item_id h =
    items_from_lem nodes 0 plan_id current_item_id (length nodes) (omega arith) h
