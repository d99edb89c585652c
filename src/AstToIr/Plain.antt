-- ===== src/AstToIr/Plain.antt =====
-- The plan of a syntax tree, and its shape.
use db_query_optimizer.AstToIr.Stands.{FirstOutputs}
use db_query_optimizer.Common.{ℕ, Option, none, some, ◌>>=◌, ◌≡◌, refl, ◌∙◌}
use db_query_optimizer.Common.Text.{Text}
use db_query_optimizer.Base.{TableColumn}
use db_query_optimizer.Ir.{Plan, Plans, null, node, nil}
use db_query_optimizer.Optimizations.AggMove.Count.{IsReady, AreReady, plan_count}
use db_query_optimizer.Ast as Ast
use db_query_optimizer.AstToIr.{
  fresh_node, ast_data, push_child, first_output, child_outputs, set_columns, ast_to_ir,
}
use db_query_optimizer.AstToIr.Sound.{child_count, GivesOutput, NodeIsSound, IsSound, Mirrors}
use db_query_optimizer.AstToIr.Made.{HasInputs, IsAcceptable, made}

sequence_lem :
    {A B C : Type 0} (o : Option A) (f : A → Option B) (g : B → C) (b : B)
    → (o >>= f) ≡ some b
    → (o >>= λ a. f a >>= λ b. some (g b)) ≡ some (g b)
sequence_lem none f g b h = cc
sequence_lem (some a) f g b h = rw (h) refl

count_lem :
    (stoull stof : Text → Option ℕ) (l r : Ast.AstNode) (p q : Plan)
    → Mirrors stoull stof l p
    → Mirrors stoull stof r q
    → plan_count (push_child p (push_child q nil)) ≡ child_count l r
unfolding push_child
count_lem stoull stof Ast.null Ast.null null null h k = refl
count_lem stoull stof Ast.null (Ast.node v l r) null (node d cs) h k = refl
count_lem stoull stof (Ast.node v l r) Ast.null (node d cs) null h k = refl
count_lem stoull stof (Ast.node v l r) (Ast.node w s t) (node d cs) (node e es) h k = refl
count_lem stoull stof Ast.null _ (node d cs) q h k = absurd h
count_lem stoull stof (Ast.node v l r) _ null q h k = absurd h
count_lem stoull stof _ Ast.null p (node e es) h k = absurd k
count_lem stoull stof _ (Ast.node w s t) p null h k = absurd k

outputs_lem :
    (p q : Plan) (a b : TableColumn)
    → first_output p ≡ some a
    → first_output q ≡ some b
    → (child_outputs (push_child p (push_child q nil)) ≡ some (a, b))
      × FirstOutputs (push_child p (push_child q nil)) a b
unfolding push_child child_outputs first_output
outputs_lem null q a b h k = cc
outputs_lem (node d cs) null a b h k = cc
outputs_lem (node d cs) (node e es) a b h k = (rw (h, k) refl, (h, k))

push_child-AreReady :
    (p q : Plan) → IsReady p → IsReady q → AreReady (push_child p (push_child q nil))
unfolding push_child
push_child-AreReady null null h k = tt
push_child-AreReady null (node e es) h k = (k, tt)
push_child-AreReady (node d cs) null h k = (h, tt)
push_child-AreReady (node d cs) (node e es) h k = (h, (k, tt))

module _ (stoull stof : Text → Option ℕ) where
  abbrev IsTranslated : Ast.AstNode → Option Plan → Type 0
  IsTranslated t r =
      (q : Plan) × (r ≡ some q)
      × Mirrors stoull stof t q
      × IsReady q
      × (GivesOutput t → (c : TableColumn) × (first_output q ≡ some c))

  acceptable :
      (v : Ast.AstValue) (l r : Ast.AstNode) (cs : Plans)
      → plan_count cs ≡ child_count l r
      → NodeIsSound v l r
      → IsAcceptable v cs
  acceptable (Ast.map_node e) l r cs n h = h
  acceptable (Ast.aggregate_clause_node e) l r cs n h = n ∙ h
  acceptable _ l r cs n h = tt

  inputs :
      (v : Ast.AstValue) (l r : Ast.AstNode) (p q : Plan)
      → NodeIsSound v l r
      → (GivesOutput l → (c : TableColumn) × (first_output p ≡ some c))
      → (GivesOutput r → (c : TableColumn) × (first_output q ≡ some c))
      → HasInputs v (push_child p (push_child q nil))
  inputs (Ast.set_operation_node e) l r p q (gl, gr) hl hr =
      let (a, ea) = hl gl in
      let (b, eb) = hr gr in let (found, first) = outputs_lem p q a b ea eb in (a, b, found, first)
  inputs _ l r p q h hl hr = tt

  translated : (t : Ast.AstNode) → IsSound t → IsTranslated t (ast_to_ir stoull stof t)
  unfolding ast_to_ir first_output
  translated Ast.null h = (null, refl, tt, tt, λ b. absurd b)
  translated (Ast.node v l r) (h, hl, hr) =
      let (p, ep, mp, rp, gp) = translated l hl in
      let (q, eq, mq, rq, gq) = translated r hr in
      let cs = push_child p (push_child q nil) in
      let (e, ee, plain, fed, stands, out) =
        made stoull stof v cs (acceptable v l r cs (count_lem stoull stof l r p q mp mq) h)
          (inputs v l r p q h gp gq) in
      (
        node (fresh_node e) cs,
        rw (ast_to_ir, ep, eq)
            (sequence_lem (ast_data stoull stof v) (λ d. set_columns d cs)
              (λ e. node (fresh_node e) cs) e ee),
        (stands, (p, q, refl, mp, mq)),
        (plain, fed, push_child-AreReady p q rp rq),
        λ g. out g,
      )

-- On a syntax tree whose maps have numbers as operands (whole ones for a remainder), whose set
-- operations have two children with an output column, and whose aggregations have one child,
-- `astToIr` returns a plan: the tree, node for node, where each node has the operator that its value
-- names, with its arguments, and the input columns that the value names, in order, with the types of the
-- catalog (the children's first outputs for a set operation); the output columns too are fixed, but
-- for those of sorts and groups. Every node has the shape of its operator, and the plan is as the
-- optimizations take it.
pub ast_to_ir-IsReady :
    (stoull stof : Text → Option ℕ) (t : Ast.AstNode)
    → IsSound t
    → (q : Plan) × (ast_to_ir stoull stof t ≡ some q) × Mirrors stoull stof t q × IsReady q
ast_to_ir-IsReady stoull stof t h = let (q, e, m, r, _) = translated stoull stof t h in (q, e, m, r)
