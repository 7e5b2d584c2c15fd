-- ===== src/Scheduler/Waiters/Shutdown.antt =====
-- include/ate/scheduler.hpp: `shutdown` and stop requests, and the consumers that wait.
use async_task_engine.Common.{ℕ, ◌≡◌, ◌≢◌, ◌⊎◌, inl, inr, refl, true, arith, update-at}
use async_task_engine.Scheduler.{try_pop, wait_and_pop}
use async_task_engine.Scheduler.Drain.{wait_and_pop-eq-try_pop}
use async_task_engine.Scheduler.Waiters.{asleep, returned, System, entered, Reach}
use async_task_engine.Scheduler.Waiters.Invariant.{Reach-IsAlert}

-- Once a stop is requested of a consumer, or `shutdown` has notified all, the consumer does not
-- sleep, and the next time it has the mutex it returns from `wait_and_pop` with what `try_pop`
-- gives, so with a task as long as one is queued.
pub released :
    {n : ℕ} {s : System}
    → Reach n s
    → (i : ℕ) → (s.stop i ≡ true) ⊎ ((s.scheduler.stopped ≡ true) × (s.closers ≡ 0))
    → (s.consumer i ≢ asleep)
      × ((entered s i (wait_and_pop s.scheduler (s.stop i))).consumer i
          ≡ returned (try_pop s.scheduler).0)
unfolding entered
released {s = s} r i h =
    let v = Reach-IsAlert r in
    (
      elim h [ inl on ↦ v.stopped i on | inr (shut, told) ↦ v.closed i shut told ],
      elim (wait_and_pop-eq-try_pop s.scheduler (s.stop i)) [
        | inl (e, none_left, up, off) ↦ absurd (ground arith)
        | inr e ↦ rw e (update-at s.consumer i (returned (try_pop s.scheduler).0) i refl)
      ],
    )
