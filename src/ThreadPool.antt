-- ===== src/ThreadPool.antt =====
-- src/client/thread_pool.cpp: the pool as a step relation. A step is what a thread does while it
-- holds the mutex, or the end of a task. A waiting worker may look at the queue at any time, as
-- `condition_variable::wait` allows; which notification wakes it is not modelled. A task is a
-- number, and what it does is left open.
pub mod Executed
use db_query_optimizer.Common.{
  ℕ, zero, suc, Bool, true, false, List, [], ◌∷◌, ◌++◌, if◌then◌else◌, ◌≡◌,
}

-- Where a worker thread is: at the wait, in a task, or behind its `return`.
pub data Worker : Type 0 where
  waiting : Worker
  running : ℕ → Worker
  returned : Worker

-- The pool's members, and the history: the tasks enqueued, taken from the queue and finished.
pub record Pool : Type 0 where
  pub stop : Bool
  pub client_tasks : List ℕ
  pub workers : List Worker
  pub enqueued : List ℕ
  pub taken : List ℕ
  pub finished : List ℕ

unfoldable pub worker_threads : ℕ → List Worker
worker_threads zero = []
worker_threads (suc n) = waiting ∷ worker_threads n

-- `ThreadPool(numberOfThreads)`
unfoldable pub new_pool : ℕ → Pool
unfolding worker_threads
new_pool number_of_threads = record {
  stop = false;
  client_tasks = [];
  workers = worker_threads number_of_threads;
  enqueued = [];
  taken = [];
  finished = [];
}

-- `enqueue`
unfoldable pub enqueue : ℕ → Pool → Pool
enqueue task p = record p {
  client_tasks = p.client_tasks ++ task ∷ [];
  enqueued = p.enqueued ++ task ∷ [];
}

-- The part of the destructor before the joins.
unfoldable pub request_stop : Pool → Pool
request_stop p = record p { stop = true }

-- What a worker does with the lock: with nothing to do it waits, or returns if the pool stops.
unfoldable pub next_worker : Bool → List ℕ → Worker
next_worker stop [] = if stop then returned else waiting
next_worker stop (task ∷ tasks) = running task

unfoldable pub front : List ℕ → List ℕ
front [] = []
front (task ∷ tasks) = task ∷ []

unfoldable pub pop : List ℕ → List ℕ
pop [] = []
pop (task ∷ tasks) = tasks

-- A worker wakes between the others.
unfoldable pub wake : List Worker → List Worker → Pool → Pool
unfolding next_worker front pop
wake before after p = record p {
  client_tasks = pop p.client_tasks;
  workers = before ++ next_worker p.stop p.client_tasks ∷ after;
  taken = p.taken ++ front p.client_tasks;
}

-- A task ends.
unfoldable pub finish : ℕ → List Worker → List Worker → Pool → Pool
finish task before after p = record p {
  workers = before ++ waiting ∷ after;
  finished = task ∷ p.finished;
}

-- No task is enqueued once the destructor runs: the object is not to be used then.
pub data Step : Pool → Pool → Type 0 where
  enqueues : {p : Pool} (task : ℕ) → p.stop ≡ false → Step p (enqueue task p)
  stops : {p : Pool} → Step p (request_stop p)
  wakes :
      {p : Pool} (before after : List Worker)
      → p.workers ≡ before ++ waiting ∷ after
      → Step p (wake before after p)
  finishes :
      {p : Pool} (task : ℕ) (before after : List Worker)
      → p.workers ≡ before ++ running task ∷ after
      → Step p (finish task before after p)

-- What the pool can come to.
pub data Reachable (number_of_threads : ℕ) : Pool → Type 0 where
  start : Reachable number_of_threads (new_pool number_of_threads)
  step : {p q : Pool} → Reachable number_of_threads p → Step p q → Reachable number_of_threads q
