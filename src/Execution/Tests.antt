-- ===== src/Execution/Tests.antt =====
-- A pool of one worker with a task and its continuation, which is shut down before either has run.
use async_task_engine.Common.{
  ℕ, zero, suc, ◌+◌, ◌<◌, ◌≤◌, true, ◌≡◌, refl, [], ◌∷◌, some, arith, ℕ_discrete,
}
use async_task_engine.TaskQueue.{empty, push, try_pop, shutdown}
use async_task_engine.ThreadPool.{
  exited, turn, wake_up, works, flags, notifies_all, stops, init as new_pool,
  submit as submit_number,
}
use async_task_engine.AsyncResult.{returned, call, get, resume, submit as make_future}
use async_task_engine.AsyncResult.System.{Reach as FutureReach}
use async_task_engine.Execution.{
  Execution, init, submit, submit_async, continue_with, leave_task, submits_async, thens, leaves,
  goes_on, Reach, start, later,
}
use async_task_engine.Execution.Submits.{system}
use async_task_engine.Execution.Refines.{pool-refines}
use async_task_engine.Execution.Joined.{joined-outcome}
use async_task_engine.Execution.Shutdown.{Turns, IsExited, shutdown-joins}

record Run (n : ℕ) : Type 0 where
  last : Execution
  reach : Reach n last

-- Both are queued, and the pool is shut down.
abbrev closed : Run 1
unfolding init new_pool empty submit submit_number push make_future submit_async continue_with
    shutdown wake_up ℕ_discrete
closed = record {
  last = _;
  reach =
      later
        (later
          (later
            (later (later start (submits_async (returned 7)))
              (thens 0 (λ v. returned (v + 1)) (omega arith)))
            (goes_on (flags refl) tt))
          (goes_on (notifies_all refl) tt))
        (goes_on (stops 0 refl (omega arith)) tt);
}

-- The worker drains the queue and leaves.
abbrev joined : Run 1
unfolding closed turn try_pop call get resume leave_task ℕ_discrete
joined = record {
  last = _;
  reach =
      later
        (later
          (later
            (later
              (later (later closed.reach (goes_on (works 0 _ (omega arith) refl) refl))
                (goes_on (works 0 _ (omega arith) refl) refl))
              (leaves 0 0 _ _ _ (omega arith) refl refl refl refl))
            (goes_on (works 0 _ (omega arith) refl) refl))
          (leaves 0 1 _ _ _ (omega arith) refl refl refl refl))
        (goes_on (works 0 _ (omega arith) refl) refl);
}

joined-result : joined.last.engine.results 1 ≡ some (returned 8)
unfolding joined
joined-result = refl

pool-refines_example : FutureReach 1 (system joined.last)
unfolding joined
pool-refines_example = pool-refines joined.last joined.reach

joined-exited : (i : ℕ) → i < 1 → joined.last.pool.worker i ≡ exited
unfolding joined
joined-exited zero lt = refl
joined-exited (suc i) lt = ground arith

joined-outcome_example :
    (joined.last.engine.results 0 ≡ some (returned 7))
    × (joined.last.engine.results 1 ≡ some (returned 8))
unfolding joined
joined-outcome_example =
    joined-outcome joined.last 0 1 ((λ v. returned (v + 1)) ∷ []) (returned 7) joined.reach
      (omega arith) joined-exited refl (1, refl, refl)

closed-stopped : (i : ℕ) → i < 1 → closed.last.pool.stop i ≡ true
unfolding closed
closed-stopped zero lt = refl
closed-stopped (suc i) lt = ground arith

shutdown-joins_example :
    (j : ℕ) × (y : Execution) × Turns 1 closed.last j y × (j ≤ 7) × Reach 1 y × IsExited 1 y
unfolding closed
shutdown-joins_example = shutdown-joins closed.last closed.reach closed-stopped
