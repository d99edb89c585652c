-- ===== src/Tests/Runtime.antt =====
-- A pool that runs two tasks and stops, and a stream that is cut inside a message.
use db_query_optimizer.Framing.Frames.{extract_items-stream, stream, IsFrame}
use db_query_optimizer.Common.{false, some, ℕ, true, [], ◌∷◌, ◌++◌, replicate, ◌≡◌, refl}
use db_query_optimizer.Common.Text.{Text}
use db_query_optimizer.ThreadPool.{
  Pool, new_pool, worker_threads, enqueue, request_stop, next_worker, front, pop, wake, finish,
  enqueues, stops, wakes, finishes, Reachable, start, step,
}
use db_query_optimizer.ThreadPool.Executed.{
  count, running_count, is_running, some_returned, is_returned, IsExact, Reachable-IsExact,
  Reachable-executed,
}
use db_query_optimizer.Framing.{
  Message, payload_size, has_message, extract_loop, uint32_at, finds_delimiter, Extraction,
  extract_items,
}
use db_query_optimizer.Framing.Chunks.{leftover, then_extract, extract_items-append}

-- One worker: it takes the task 7, the task 8 arrives, the pool stops, and the worker drains it.
abbrev busy : Pool
busy = wake [] [] (enqueue 7 (new_pool 1))

abbrev stopping : Pool
stopping = request_stop (enqueue 8 busy)

abbrev second : Pool
second = wake [] [] (finish 7 [] [] stopping)

abbrev drained : Pool
drained = wake [] [] (finish 8 [] [] second)

busy-Reachable : Reachable 1 busy
unfolding new_pool worker_threads enqueue wake next_worker front pop
busy-Reachable = step (step start (enqueues 7 refl)) (wakes [] [] refl)

stopping-Reachable : Reachable 1 stopping
unfolding new_pool worker_threads enqueue wake next_worker front pop request_stop
stopping-Reachable = step (step busy-Reachable (enqueues 8 refl)) stops

second-Reachable : Reachable 1 second
unfolding new_pool worker_threads enqueue wake next_worker front pop request_stop finish
second-Reachable = step (step stopping-Reachable (finishes 7 [] [] refl)) (wakes [] [] refl)

drained-Reachable : Reachable 1 drained
unfolding new_pool worker_threads enqueue wake next_worker front pop request_stop finish
drained-Reachable = step (step second-Reachable (finishes 8 [] [] refl)) (wakes [] [] refl)

one_returned : some_returned drained.workers ≡ true
unfolding new_pool worker_threads enqueue wake next_worker front pop request_stop finish
    some_returned is_returned
one_returned = refl

none_running : (t : ℕ) → running_count t drained.workers ≡ 0
unfolding new_pool worker_threads enqueue wake next_worker front pop request_stop finish
    running_count is_running
none_running t = refl

Reachable-IsExact_example : IsExact stopping
Reachable-IsExact_example = Reachable-IsExact stopping-Reachable

Reachable-executed_example : count 7 drained.finished ≡ count 7 drained.enqueued
Reachable-executed_example = Reachable-executed drained-Reachable one_returned none_running 7

-- A message with a payload of two bytes, in two reads.
abbrev first_read : Text
first_read = 177 ∷ 11 ∷ 219 ∷ 90 ∷ replicate 4 0 ++ 2 ∷ replicate 23 0 ++ 65 ∷ []

abbrev second_read : Text
second_read = 66 ∷ []

first_read-finds_delimiter : finds_delimiter first_read ≡ true
unfolding finds_delimiter uint32_at
first_read-finds_delimiter = refl

-- The payload is not whole after the first read, which stays as it is.
rest-finds_delimiter : finds_delimiter (leftover first_read ++ second_read) ≡ true
unfolding finds_delimiter uint32_at extract_loop has_message payload_size
rest-finds_delimiter = refl

extract_items-append_example :
    (x : Extraction) × (y : Extraction) × (extract_items first_read ≡ some x)
    × (extract_items (x.unprocessed ++ second_read) ≡ some y)
    × (extract_items (first_read ++ second_read) ≡ some (then_extract x.messages y))
extract_items-append_example =
    extract_items-append first_read second_read first_read-finds_delimiter rest-finds_delimiter

-- A whole message before the first part of another one.
abbrev greeting : Message
greeting = record {
  meta_info = 177 ∷ 11 ∷ 219 ∷ 90 ∷ replicate 4 0 ++ 2 ∷ replicate 23 0;
  payload = 72 ∷ 105 ∷ [];
}

greeting-IsFrame : IsFrame greeting
unfolding uint32_at
greeting-IsFrame = record { whole = refl; delimited = refl; sized = refl }

first_read-partial : has_message first_read ≡ false
unfolding has_message payload_size uint32_at
first_read-partial = refl

extract_items-stream_example :
    extract_items (stream (greeting ∷ []) first_read)
    ≡ some (record { messages = greeting ∷ []; unprocessed = first_read })
extract_items-stream_example =
    extract_items-stream greeting [] first_read (greeting-IsFrame, tt) first_read-partial
