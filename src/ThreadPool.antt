-- ===== src/ThreadPool.antt =====
-- include/ate/thread_pool.hpp and src/thread_pool.cpp: `n` workers, one `TaskQueue`, the threads
-- that submit, and the thread that shuts the pool down, interleaved in any order. A task is a
-- number: the callable is opaque, and an exception that it throws ends in its future.
pub mod Order
pub mod Closing
pub mod Wakeup
pub mod Drain
mod Tests
use async_task_engine.Common.{
  ℕ, suc, ◌<◌, ◌≡◌, ◌≢◌, Bool, true, false, List, [], ◌∷◌, ◌++◌, Option, none, some, update, max,
  ◌==◌, if◌then◌else◌,
}
use async_task_engine.TaskQueue.{
  TaskQueue, empty, push, try_pop, wait_and_pop, shutdown, size_approx,
}

-- Where a worker stands in `worker_loop`.
pub data Worker : Type 0 where
  testing : Worker  -- at `while (!stoken.stop_requested())`
  waiting : Worker  -- in `wait_and_pop`, about to take the mutex
  asleep : Worker  -- in `wait_and_pop`, in the condition variable
  running : ℕ → Worker  -- at `(*task)()` of the main loop
  draining : Worker  -- at `try_pop` of the drain loop
  running_last : ℕ → Worker  -- at `(*task)()` of the drain loop
  exited : Worker

-- Where the thread stands that calls `shutdown`.
pub data Closer : Type 0 where
  resting : Closer
  flagged : Closer  -- in `TaskQueue::shutdown`, before `notify_all`
  stopping : ℕ → Closer  -- before `request_stop` of that worker

pub record Pool : Type 0 where
  pub queue : TaskQueue ℕ
  pub stop : ℕ → Bool
  pub worker : ℕ → Worker
  pub closer : Closer
  -- threads in `push` that have released the mutex and not yet called `notify_one`
  pub notifiers : ℕ
  -- the history: the tasks that `submit` took, and those that workers took out, oldest first
  pub accepted : List ℕ
  pub started : List ℕ

-- The constructor. `hardware` is what `hardware_concurrency` returns.
unfoldable pub thread_count : ℕ → ℕ → ℕ
thread_count num_threads hardware = if num_threads == 0 then max 1 hardware else num_threads

unfoldable pub init : Pool
unfolding empty
init = record {
  queue = empty;
  stop = λ _. false;
  worker = λ _. testing;
  closer = resting;
  notifiers = 0;
  accepted = [];
  started = [];
}

-- What notifying a worker does to it.
unfoldable pub wake_up : Worker → Worker
wake_up asleep = waiting
wake_up w = w

-- The locked part of `submit`: `false` is the branch that throws.
unfoldable pub submit : Pool → ℕ → Bool × Pool
submit s task =
    let (ok, q) = push s.queue task in
    elim ok [
      | true ↦ (
        true,
        record s { queue = q; notifiers = suc s.notifiers; accepted = s.accepted ++ task ∷ [] },
      )
      | false ↦ (false, record s { queue = q })
    ]

unfoldable pub pending_tasks : Pool → ℕ
unfolding size_approx
pending_tasks s = size_approx s.queue

-- What a worker's turn makes of the worker and the queue; the option is a task taken out.
pub record Turn : Type 0 where
  pub next : Worker
  pub queue : TaskQueue ℕ
  pub took : Option ℕ

unfoldable pub main_turn : TaskQueue ℕ → Option (Option ℕ × TaskQueue ℕ) → Turn
main_turn q none = record { next = asleep; queue = q; took = none }
main_turn q (some (none, q')) = record { next = testing; queue = q'; took = none }
main_turn q (some (some task, q')) = record { next = running task; queue = q'; took = some task }

unfoldable pub drain_turn : Option ℕ × TaskQueue ℕ → Turn
drain_turn (none, q) = record { next = exited; queue = q; took = none }
drain_turn (some task, q) = record { next = running_last task; queue = q; took = some task }

-- `worker_loop`, one step: `none` for a worker that cannot move by itself.
unfoldable pub turn : TaskQueue ℕ → Bool → Worker → Option Turn
unfolding main_turn drain_turn
turn q stop testing =
    some (record { next = if stop then draining else waiting; queue = q; took = none })
turn q stop waiting = some (main_turn q (wait_and_pop q stop))
turn q stop asleep = none
turn q stop (running _) = some (record { next = testing; queue = q; took = none })
turn q stop draining = some (drain_turn (try_pop q))
turn q stop (running_last _) = some (record { next = draining; queue = q; took = none })
turn q stop exited = none

abbrev pub log : List ℕ → Option ℕ → List ℕ
log tasks none = tasks
log tasks (some task) = tasks ++ task ∷ []

abbrev pub commit : Pool → ℕ → Turn → Pool
commit s i t = record s {
  queue = t.queue;
  worker = update s.worker i t.next;
  started = log s.started t.took;
}

abbrev pub request_stop : Pool → ℕ → Pool
request_stop s i = record s {
  stop = update s.stop i true;
  worker = update s.worker i (wake_up (s.worker i));
  closer = stopping (suc i);
}

pub data Step (n : ℕ) (s : Pool) : Pool → Type 0 where
  submits : (task : ℕ) → Step n s (submit s task).1
  -- `notify_one` wakes a sleeper, if there is one.
  notifies :
      (k i : ℕ)
      → s.notifiers ≡ suc k
      → i < n
      → s.worker i ≡ asleep
      → Step n s (record s { notifiers = k; worker = update s.worker i waiting })
  notifies_none :
      (k : ℕ)
      → s.notifiers ≡ suc k
      → ((i : ℕ) → i < n → s.worker i ≢ asleep)
      → Step n s (record s { notifiers = k })
  -- A condition variable may wake a sleeper for no reason.
  wakes :
      (i : ℕ)
      → i < n
      → s.worker i ≡ asleep
      → Step n s (record s { worker = update s.worker i waiting })
  works :
      (i : ℕ) (t : Turn)
      → i < n
      → turn s.queue (s.stop i) (s.worker i) ≡ some t
      → Step n s (commit s i t)
  -- `ThreadPool::shutdown`: the flag, `notify_all`, then `request_stop` of each worker in turn.
  flags : s.closer ≡ resting → Step n s (record s { queue = shutdown s.queue; closer = flagged })
  notifies_all :
      s.closer ≡ flagged
      → Step n s (record s { worker = λ i. wake_up (s.worker i); closer = stopping 0 })
  stops : (i : ℕ) → s.closer ≡ stopping i → i < n → Step n s (request_stop s i)
  rests : s.closer ≡ stopping n → Step n s (record s { closer = resting })

pub data Reach (n : ℕ) : Pool → Type 0 where
  start : Reach n init
  later : {s t : Pool} → Reach n s → Step n s t → Reach n t
