-- ===== src/ThreadPool/Order.antt =====
-- src/thread_pool.cpp: the order in which tasks start, and what shutdown means for the queue.
use async_task_engine.Common.{
  ℕ, ◌+◌, ◌≡◌, ap, length, length-append, refl, Bool, [], ◌∷◌, ◌++◌, append_assoc, some, arith,
}
use async_task_engine.TaskQueue.{
  TaskQueue, empty, push, try_pop, wait_and_pop, shutdown, size_approx,
}
use async_task_engine.ThreadPool.{
  Worker, testing, Pool, pending_tasks, init, submit, Turn, turn, log, Step, submits, works, Reach,
  start, later,
}

abbrev Taken : TaskQueue ℕ → Turn → Type 0
Taken q t = (log [] t.took ++ t.queue.tasks ≡ q.tasks) × (t.queue.is_shutdown ≡ q.is_shutdown)

-- A worker takes out the head of the queue or nothing, and leaves the flag alone.
pub turn-Taken :
    (q : TaskQueue ℕ) (stop : Bool) (w : Worker) (t : Turn) → turn q stop w ≡ some t → Taken q t
unfolding turn try_pop wait_and_pop
turn-Taken q stop testing t e = ground arith
turn-Taken q stop w t e = ground arith

module _ {n : ℕ} {s : Pool} where
  Step-order :
      {t : Pool}
      → Step n s t
      → s.accepted ≡ s.started ++ s.queue.tasks
      → t.accepted ≡ t.started ++ t.queue.tasks
  unfolding submit push shutdown
  Step-order (submits task) h = ground (arith, append_assoc s.started s.queue.tasks (task ∷ []))
  Step-order (works i t lt e) h = ground (
    arith,
    turn-Taken s.queue (s.stop i) (s.worker i) t e,
    append_assoc s.started (log [] t.took) t.queue.tasks,
  )
  Step-order st h = h

-- In every reachable state, started and queued together are what was accepted, in that order.
pub Reach-order : {n : ℕ} {s : Pool} → Reach n s → s.accepted ≡ s.started ++ s.queue.tasks
unfolding init empty
Reach-order start = refl
Reach-order (later r st) = Step-order st (Reach-order r)

-- The tasks that `pending_tasks` counts are those that were accepted and not started.
pub pending_tasks_lem :
    {n : ℕ} {s : Pool} → Reach n s → length s.started + pending_tasks s ≡ length s.accepted
unfolding pending_tasks size_approx
pending_tasks_lem {s = s} r =
    let all = ap length (Reach-order r) in omega (arith, all, length-append s.started s.queue.tasks)
