-- ===== src/ThreadPool/Executed.antt =====
-- Every task is taken in the order of the queue and executed once.
use db_query_optimizer.Common.{
  ℕ, zero, suc, ◌+◌, Bool, true, false, ◌||◌, List, [], ◌∷◌, ◌++◌, ◌==◌, if◌then◌else◌, ◌≡◌, refl,
  sym, ap, ◌∙◌, arith, Bool-cases, inl, inr,
}
use mathlib.Core.List.{append_assoc, append-nil}
use db_query_optimizer.ThreadPool.{
  Worker, waiting, running, returned, Pool, worker_threads, new_pool, enqueue, request_stop,
  next_worker, front, pop, wake, finish, Step, enqueues, stops, wakes, finishes, Reachable, start,
  step,
}

-- How often a task stands in a list, and how many workers are in it.
unfoldable pub count : ℕ → List ℕ → ℕ
count t [] = 0
count t (x ∷ xs) = (if t == x then 1 else 0) + count t xs

unfoldable pub is_running : ℕ → Worker → ℕ
is_running t w = elim w [ running x ↦ if t == x then 1 else 0 | _ ↦ 0 ]

unfoldable pub running_count : ℕ → List Worker → ℕ
unfolding is_running
running_count t [] = 0
running_count t (w ∷ ws) = is_running t w + running_count t ws

unfoldable pub is_returned : Worker → Bool
is_returned w = elim w [ returned ↦ true | _ ↦ false ]

unfoldable pub some_returned : List Worker → Bool
unfolding is_returned
some_returned [] = false
some_returned (w ∷ ws) = is_returned w || some_returned ws

count-append : (t : ℕ) (xs ys : List ℕ) → count t (xs ++ ys) ≡ count t xs + count t ys
unfolding count
count-append t [] ys = omega arith
count-append t (x ∷ xs) ys = omega (arith, count-append t xs ys)

running_count-append :
    (t : ℕ) (before after : List Worker) (w : Worker)
    → running_count t (before ++ w ∷ after)
      ≡ is_running t w + (running_count t before + running_count t after)
unfolding running_count
running_count-append t [] after w = omega arith
running_count-append t (v ∷ before) after w = omega (arith, running_count-append t before after w)

some_returned-append :
    (before after : List Worker) (w : Worker)
    → some_returned (before ++ w ∷ after)
      ≡ is_returned w || (some_returned before || some_returned after)
unfolding some_returned
some_returned-append [] after w = refl
some_returned-append (v ∷ before) after w = ground (arith, some_returned-append before after w)

-- The queue holds what was enqueued and not taken, in order; a task was taken as often as it is
-- running or finished; a worker returns only when the pool stops with an empty queue.
pub record IsExact (p : Pool) : Type 0 where
  pub in_order : p.taken ++ p.client_tasks ≡ p.enqueued
  pub executed : (t : ℕ) → count t p.taken ≡ running_count t p.workers + count t p.finished
  pub drained : some_returned p.workers ≡ true → (p.stop ≡ true) × (p.client_tasks ≡ [])

front-pop : (taken tasks : List ℕ) → (taken ++ front tasks) ++ pop tasks ≡ taken ++ tasks
unfolding front pop
front-pop taken [] = ap (λ t. t ++ []) (append-nil taken)
front-pop taken (x ∷ tasks) = append_assoc taken (x ∷ []) tasks

new_count : (t n : ℕ) → running_count t (worker_threads n) ≡ 0
unfolding running_count worker_threads is_running
new_count t zero = refl
new_count t (suc n) = omega (arith, new_count t n)

new_returned : (n : ℕ) → some_returned (worker_threads n) ≡ false
unfolding some_returned worker_threads is_returned
new_returned zero = refl
new_returned (suc n) = ground (arith, new_returned n)

conflict : (b : Bool) → b ≡ true → b ≡ false → ⊥
conflict b h k = cc

new_pool-IsExact : (n : ℕ) → IsExact (new_pool n)
unfolding new_pool count
new_pool-IsExact n = record {
  in_order = refl;
  executed = λ t. omega (arith, new_count t n);
  drained = λ h. absurd (conflict _ h (new_returned n));
}

enqueue-IsExact : {p : Pool} (task : ℕ) → p.stop ≡ false → IsExact p → IsExact (enqueue task p)
unfolding enqueue
enqueue-IsExact {p} task h i = record {
  in_order =
      sym (append_assoc p.taken p.client_tasks (task ∷ [])) ∙ ap (λ t. t ++ task ∷ []) i.in_order;
  executed = i.executed;
  drained = λ r. absurd (conflict _ ((i.drained r).0) h);
}

request_stop-IsExact : {p : Pool} → IsExact p → IsExact (request_stop p)
unfolding request_stop
request_stop-IsExact i = record {
  in_order = i.in_order;
  executed = i.executed;
  drained = λ r. (refl, (i.drained r).1);
}

-- The worker runs the task that it took.
takes_front :
    (t : ℕ) (stop : Bool) (tasks : List ℕ)
    → is_running t (next_worker stop tasks) ≡ count t (front tasks)
unfolding is_running next_worker count front
takes_front t true [] = refl
takes_front t false [] = refl
takes_front t stop (x ∷ tasks) = omega arith

return_cases :
    (stop : Bool) (tasks : List ℕ)
    → is_returned (next_worker stop tasks) ≡ true
    → (stop ≡ true) × (tasks ≡ [])
unfolding is_returned next_worker
return_cases true [] h = (refl, refl)
return_cases false [] h = cc
return_cases stop (x ∷ tasks) h = cc

pop-nil : (tasks : List ℕ) → tasks ≡ [] → pop tasks ≡ []
unfolding pop
pop-nil tasks h = rw h refl

or_rest : (a b : Bool) → a ≡ false → a || b ≡ true → b ≡ true
or_rest a b h k = ground arith

wake-IsExact :
    {p : Pool} (before after : List Worker)
    → p.workers ≡ before ++ waiting ∷ after
    → IsExact p
    → IsExact (wake before after p)
unfolding wake is_running is_returned
wake-IsExact {p} before after e i = record {
  in_order = front-pop p.taken p.client_tasks ∙ i.in_order;
  executed = λ t. omega (
    arith,
    i.executed t,
    ap (running_count t) e,
    running_count-append t before after waiting,
    running_count-append t before after (next_worker p.stop p.client_tasks),
    takes_front t p.stop p.client_tasks,
    count-append t p.taken (front p.client_tasks),
  );
  drained = λ r.
      let here = some_returned-append before after (next_worker p.stop p.client_tasks) in
      let old = ap some_returned e ∙ some_returned-append before after waiting in
      elim (Bool-cases (is_returned (next_worker p.stop p.client_tasks))) [
        | inl now ↦
            let (stopping, none_left) = return_cases p.stop p.client_tasks now in
            (stopping, pop-nil p.client_tasks none_left)
        | inr later ↦
            let (stopping, none_left) = i.drained (old ∙ or_rest _ _ later (sym here ∙ r)) in
            (stopping, pop-nil p.client_tasks none_left)
      ];
}

finish-IsExact :
    {p : Pool} (task : ℕ) (before after : List Worker)
    → p.workers ≡ before ++ running task ∷ after
    → IsExact p
    → IsExact (finish task before after p)
unfolding finish is_running is_returned count
finish-IsExact {p} task before after e i = record {
  in_order = i.in_order;
  executed = λ t. omega (
    arith,
    i.executed t,
    ap (running_count t) e,
    running_count-append t before after waiting,
    running_count-append t before after (running task),
  );
  drained = λ r.
      let here = some_returned-append before after waiting in
      let old = ap some_returned e ∙ some_returned-append before after (running task) in
      i.drained (old ∙ sym here ∙ r);
}

Step-IsExact : {p q : Pool} → Step p q → IsExact p → IsExact q
Step-IsExact (enqueues task h) i = enqueue-IsExact task h i
Step-IsExact stops i = request_stop-IsExact i
Step-IsExact (wakes before after e) i = wake-IsExact before after e i
Step-IsExact (finishes task before after e) i = finish-IsExact task before after e i

-- In every pool that can be reached: the tasks taken and then the queue are the tasks enqueued, in
-- their order; each task was taken as often as it is running or finished; and a worker has
-- returned only if the pool stops and its queue is empty.
pub Reachable-IsExact : {n : ℕ} {p : Pool} → Reachable n p → IsExact p
Reachable-IsExact {n} start = new_pool-IsExact n
Reachable-IsExact (step r s) = Step-IsExact s (Reachable-IsExact r)

-- Once a worker has returned and none is in a task, as when the destructor has joined them all,
-- every task that was enqueued has been executed, exactly as often as it was enqueued.
pub Reachable-executed :
    {n : ℕ} {p : Pool}
    → Reachable n p
    → some_returned p.workers ≡ true
    → ((t : ℕ) → running_count t p.workers ≡ 0)
    → (t : ℕ) → count t p.finished ≡ count t p.enqueued
Reachable-executed {n} {p} r some idle t =
    let i = Reachable-IsExact r in
    let all_taken : p.taken ≡ p.enqueued =
      sym (append-nil p.taken) ∙ ap (λ q. p.taken ++ q) (sym ((i.drained some).1)) ∙ i.in_order in
    omega (arith, i.executed t, idle t, ap (count t) all_taken)
