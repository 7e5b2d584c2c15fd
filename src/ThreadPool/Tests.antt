-- ===== src/ThreadPool/Tests.antt =====
-- Runs of a pool, and the theorems on ThreadPool at states that these runs reach.
use async_task_engine.Common.{ℕ, ◌≤◌, ◌+◌, ◌≡◌, refl, [], ◌∷◌, arith, ℕ_discrete}
use async_task_engine.TaskQueue.{empty, push, wait_and_pop, shutdown}
use async_task_engine.ThreadPool.{
  asleep, running, exited, Pool, init, submit, turn, submits, works, flags, notifies_all, stops,
  Reach, start, later, thread_count,
}
use async_task_engine.ThreadPool.Order.{Reach-order}
use async_task_engine.ThreadPool.Wakeup.{attentive, no_lost_wakeup}
use async_task_engine.ThreadPool.Drain.{work_alone, shutdown-exits}

record Run (n : ℕ) : Type 0 where
  last : Pool
  reach : Reach n last

-- Two workers; worker 0 sleeps, worker 1 has task 7, and task 8 is queued but not yet announced.
abbrev busy : Run 2
unfolding init empty turn wait_and_pop submit push ℕ_discrete
busy = record {
  last = _;
  reach =
      later
        (later
          (later
            (later
              (later (later start (works 0 _ (omega arith) refl)) (works 0 _ (omega arith) refl))
              (works 1 _ (omega arith) refl))
            (submits 7))
          (works 1 _ (omega arith) refl))
        (submits 8);
}

-- The same pool, shut down.
abbrev closed : Run 2
unfolding busy
closed = record {
  last = _;
  reach =
      later
        (later (later (later busy.reach (flags refl)) (notifies_all refl))
          (stops 0 refl (omega arith)))
        (stops 1 refl (omega arith));
}

busy_state :
    (busy.last.worker 0 ≡ asleep)
    × (busy.last.worker 1 ≡ running 7)
    × (busy.last.queue.tasks ≡ 8 ∷ [])
unfolding busy
busy_state = (refl, refl, refl)

thread_count_defaults : (thread_count 0 0 ≡ 1) × (thread_count 0 8 ≡ 8) × (thread_count 3 8 ≡ 3)
unfolding thread_count
thread_count_defaults = (refl, refl, refl)

Reach-order_example : busy.last.accepted ≡ 7 ∷ 8 ∷ []
unfolding busy
Reach-order_example = Reach-order busy.reach

no_lost_wakeup_example : 1 ≤ 2 + attentive 2 busy.last.worker
unfolding busy
no_lost_wakeup_example = no_lost_wakeup busy.reach 0 (omega arith) refl refl

abbrev drained : Pool
drained = work_alone 5 0 closed.last

shutdown-exits_example :
    Reach 2 drained
    × (drained.worker 0 ≡ exited)
    × (drained.queue.tasks ≡ [])
    × (drained.started ≡ drained.accepted)
unfolding closed shutdown
shutdown-exits_example = shutdown-exits closed.reach 0 (omega arith) refl
