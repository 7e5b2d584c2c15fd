-- ===== src/Execution.antt =====
-- include/ate/thread_pool.hpp, include/ate/async_result.hpp and src/thread_pool.cpp together: the pool,
-- its tasks and their futures. A task is known to the pool by its number; a worker leaves it when its
-- body has ended, and its `packaged_task` then fills the future with the value or the exception.
pub mod Links
pub mod Quiet
pub mod Submits
pub mod Refines
pub mod Joined
pub mod Shutdown
pub mod Tests
use async_task_engine.Common.{
  ℕ, ◌<◌, ◌≡◌, true, false, [], Option, none, some, length, get_elem?, update,
}
use async_task_engine.ThreadPool.{
  Worker, running, running_last, Pool, Turn, turn, commit, submits, notifies, notifies_none, wakes,
  works, flags, notifies_all, stops, rests, init as new_pool, submit as submit_number,
  Step as PoolStep,
}
use async_task_engine.AsyncResult.{
  AsyncResult, Outcome, Callable, plain, continued, Engine, call, submit as make_future,
}

pub record Execution : Type 0 where
  pub pool : Pool
  pub engine : Engine

unfoldable pub init : Execution
unfolding new_pool
init = record { pool = new_pool; engine = record { tasks = []; results = λ k. none } }

-- `submit`: `none` if it throws, else the future.
unfoldable pub submit : Execution → Callable → Option AsyncResult × Execution
unfolding submit_number make_future
submit x c =
    let (enqueued, p) = submit_number x.pool (length x.engine.tasks) in
    elim enqueued [
      | true ↦ let (r, e) = make_future x.engine c in (some r, record { pool = p; engine = e })
      | false ↦ (none, record x { pool = p })
    ]

-- `submit_async` wraps the future that `submit` returns.
unfoldable pub submit_async : Execution → Outcome → Option AsyncResult × Execution
unfolding submit
submit_async x body = submit x (plain body)

-- `then` on a result of a task that was submitted.
unfoldable pub continue_with : Execution → ℕ → (ℕ → Outcome) → Option AsyncResult × Execution
unfolding submit
continue_with x k cont = submit x (continued (some k) cont)

-- The task that a worker is inside.
abbrev pub running_task : Worker → Option ℕ
running_task (running k) = some k
running_task (running_last k) = some k
running_task w = none

-- `(*task)()` of worker `i` ends: the future is filled, and the worker goes on.
unfoldable pub leave_task : Execution → ℕ → Turn → ℕ → Outcome → Execution
leave_task x i t k o = record {
  pool = commit x.pool i t;
  engine = record x.engine { results = update x.engine.results k (some o) };
}

-- A step of the pool that neither submits a task nor leaves one.
abbrev pub IsQuiet : {n : ℕ} {s t : Pool} → PoolStep n s t → Type 0
IsQuiet (submits task) = ⊥
IsQuiet {s = s} (works i t lt e) = running_task (s.worker i) ≡ none
IsQuiet st = Unit

pub data Step (n : ℕ) (x : Execution) : Execution → Type 0 where
  submits_async : (o : Outcome) → Step n x (submit_async x o).1
  thens :
      (k : ℕ) (cont : ℕ → Outcome) → k < length x.engine.tasks → Step n x (continue_with x k cont).1
  leaves :
      (i k : ℕ) (t : Turn) (c : Callable) (o : Outcome)
      → i < n
      → turn x.pool.queue (x.pool.stop i) (x.pool.worker i) ≡ some t
      → running_task (x.pool.worker i) ≡ some k
      → get_elem? x.engine.tasks k ≡ some c
      → call x.engine.results c ≡ some o
      → Step n x (leave_task x i t k o)
  goes_on : {p : Pool} (st : PoolStep n x.pool p) → IsQuiet st → Step n x (record x { pool = p })

pub data Reach (n : ℕ) : Execution → Type 0 where
  start : Reach n init
  later : {x y : Execution} → Reach n x → Step n x y → Reach n y
