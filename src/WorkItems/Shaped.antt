-- ===== src/WorkItems/Shaped.antt =====
-- The API data of a plan in which every node has the shape of its operator.
use db_query_optimizer.Common.{true, false, some, ◌⊎◌, inl, inr, ◌≡◌, refl, Bool-cases}
use db_query_optimizer.Ir.{Plan, Plans, null, node, nil, cons}
use db_query_optimizer.Ir.Shape.{IsShapedPlan, AreShapedPlans}
use db_query_optimizer.WorkItems.Api.{
  ApiPlan, ApiPlans, api_node, api_nil, api_cons, is_fetch, ir_to_api_data, ir_to_api_children,
}
use db_query_optimizer.WorkItems.Fields.{KindOf, api_of-Made}

abbrev mutual
  -- No pointer of the plan is null.
  pub IsThere : Plan → Type 0
  IsThere null = ⊥
  IsThere (node d cs) = AreThere cs

  pub AreThere : Plans → Type 0
  AreThere nil = Unit
  AreThere (cons p ps) = IsThere p × AreThere ps

abbrev mutual
  -- The API plan is the plan without the fetches below its root, with the data for each operator.
  pub Mirrors : Plan → ApiPlan → Type 0
  Mirrors null q = ⊥
  Mirrors (node d cs) (api_node a qs) = KindOf d.ir_data.op_info d.ir_data a × MirrorAll cs qs

  pub MirrorAll : Plans → ApiPlans → Type 0
  MirrorAll nil api_nil = Unit
  MirrorAll nil (api_cons q qs) = ⊥
  MirrorAll (cons null ps) qs = ⊥
  MirrorAll (cons (node d cs) ps) qs =
      ((is_fetch d.ir_data ≡ true) × MirrorAll ps qs)
      ⊎ ((is_fetch d.ir_data ≡ false)
          × ((r : ApiPlan) × (rs : ApiPlans) × (qs ≡ api_cons r rs)
              × Mirrors (node d cs) r
              × MirrorAll ps rs))

mutual
  unfolding ir_to_api_data

  made_plan :
      (p : Plan)
      → IsShapedPlan p
      → IsThere p
      → (q : ApiPlan) × (ir_to_api_data p ≡ some q) × Mirrors p q
  made_plan null h t = absurd t
  made_plan (node d cs) (h, hs) t =
      let (a, ea, k) = api_of-Made d.ir_data.op_info d.ir_data h in
      let (qs, eqs, m) = made_children cs hs t in
      (api_node a qs, rw (ir_to_api_data, ea, eqs) refl, (k, m))

  made_children :
      (cs : Plans)
      → AreShapedPlans cs
      → AreThere cs
      → (qs : ApiPlans) × (ir_to_api_children cs ≡ some qs) × MirrorAll cs qs
  made_children nil h t = (api_nil, refl, tt)
  made_children (cons null ps) h (t, ts) = absurd t
  made_children (cons (node d cs) ps) (h, hs) (t, ts) =
      let (qs, eqs, m) = made_children ps hs ts in
      elim (Bool-cases (is_fetch d.ir_data)) [
        | inl f ↦ (qs, rw (ir_to_api_children, f) eqs, inl (f, m))
        | inr f ↦
            let (q, eq, n) = made_plan (node d cs) h t in
            (
              api_cons q qs,
              rw (ir_to_api_children, f) (rw (eq, eqs) refl),
              inr (f, (q, qs, refl, n, m)),
            )
      ]

-- On a plan without null pointers in which every node has the shape of its operator, `irToApiData`
-- returns: no column is read that is not there. Its result is the plan without the fetches below
-- the root, node for node, and each node's data has, field for field, the input and output columns of
-- the node in their places and what its operator holds: a sort has a direction for each column, and
-- a group that has taken an aggregation in has one group column more than it has directions.
pub ir_to_api_data-Mirrors :
    (p : Plan)
    → IsShapedPlan p
    → IsThere p
    → (q : ApiPlan) × (ir_to_api_data p ≡ some q) × Mirrors p q
ir_to_api_data-Mirrors = made_plan
