-- ===== src/TaskQueue.antt =====
-- include/ate/task_queue.hpp: `TaskQueue`, a deque and a shutdown flag under one mutex. Each
-- function below is the body of one critical section; what a thread does between two of them
-- (the notifications and the sleep inside the wait) is in ThreadPool.
pub mod Fifo
mod Tests
use async_task_engine.Common.{
  ℕ, Bool, true, false, not, ◌&&◌, ◌||◌, List, [], ◌∷◌, ◌++◌, Option, none, some, length,
  if◌then◌else◌,
}

pub record TaskQueue {ℓ} (A : Type ℓ) : Type ℓ where
  pub tasks : List A
  pub is_shutdown : Bool

module _ {ℓ} {A : Type ℓ} where
  unfoldable pub empty : TaskQueue A
  empty = record { tasks = []; is_shutdown = false }

  -- `push`: `false` when the queue has been shut down.
  unfoldable pub push : TaskQueue A → A → Bool × TaskQueue A
  push q task =
      if q.is_shutdown then (false, q) else (true, record q { tasks = q.tasks ++ task ∷ [] })

  -- `front` and `pop_front`
  unfoldable pub pop_front : TaskQueue A → List A → Option A × TaskQueue A
  pop_front q [] = (none, q)
  pop_front q (task ∷ rest) = (some task, record q { tasks = rest })

  unfoldable pub try_pop : TaskQueue A → Option A × TaskQueue A
  unfolding pop_front
  try_pop q = pop_front q q.tasks

  abbrev pub is_empty : List A → Bool
  is_empty [] = true
  is_empty (_ ∷ _) = false

  -- The predicate of the wait.
  unfoldable pub ready : TaskQueue A → Bool
  ready q = not (is_empty q.tasks) || q.is_shutdown

  -- What the thread does while it holds the mutex inside `wait_and_pop`: `none` if it goes to
  -- sleep, else what the call returns. The standard wait tests the stop token first, and once stop
  -- is requested it returns the predicate.
  unfoldable pub wait_and_pop : TaskQueue A → Bool → Option (Option A × TaskQueue A)
  unfolding ready pop_front
  wait_and_pop q stop_requested =
      let got_work = ready q in
      if not stop_requested && not got_work
      then none
      else some (if not got_work || is_empty q.tasks then (none, q) else pop_front q q.tasks)

  unfoldable pub shutdown : TaskQueue A → TaskQueue A
  shutdown q = record q { is_shutdown = true }

  unfoldable pub size_approx : TaskQueue A → ℕ
  size_approx q = length q.tasks
