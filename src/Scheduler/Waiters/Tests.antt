-- ===== src/Scheduler/Waiters/Tests.antt =====
-- include/ate/scheduler.hpp: runs of two consumers on a shared scheduler.
use mathlib.Core.List.{Perm}
use async_task_engine.Common.{
  true, false, [], ◌∷◌, ℕ, ◌≤◌, ◌+◌, ◌≡◌, ◌≢◌, inl, inr, refl, ◌++◌, none, some, arith, ℕ_discrete,
}
use async_task_engine.Scheduler.Drain.{Pops}
use async_task_engine.Scheduler.Waiters.Priority.{handed_first}
use async_task_engine.Scheduler.{
  create, push, pop_top, try_pop, wait_and_pop, shutdown, normal, critical, empty, take_top,
  PriorityTask,
}
use async_task_engine.Scheduler.History.{run}
use async_task_engine.Scheduler.Heap.{answers, handed, accepted, popped as got}
use async_task_engine.Scheduler.Waiters.{
  asleep, returned, System, init, pushed, entered, pushes, calls, enters, shuts, notifies_all,
  Reach, start, later,
}
use async_task_engine.Scheduler.Waiters.History.{all_calls, all_answers, Reach-serial}
use async_task_engine.Scheduler.Waiters.Delivery.{delivered_or_queued}
use async_task_engine.Scheduler.Waiters.Invariant.{attentive}
use async_task_engine.Scheduler.Waiters.Wakeup.{no_forgotten_task}
use async_task_engine.Scheduler.Waiters.Shutdown.{released}

record Run (n : ℕ) : Type 0 where
  last : System
  reach : Reach n last

-- Consumer 0 sleeps; consumer 1 got the critical task; the normal one is queued.
abbrev busy : Run 2
unfolding init create wait_and_pop empty entered pushed push pop_top take_top ℕ_discrete
busy = record {
  last = _;
  reach =
      later
        (later
          (later
            (later
              (later (later start (calls 0 none (omega arith) (inl refl)))
                (enters 0 (omega arith) refl))
              (pushes 7 normal))
            (pushes 8 critical))
          (calls 1 none (omega arith) (inl refl)))
        (enters 1 (omega arith) refl);
}

busy_state :
    (busy.last.consumer 0 ≡ asleep)
    × (busy.last.consumer 1
        ≡ returned (some (record { func = 8; priority = critical; sequence = 1 })))
    × (busy.last.notifiers ≡ 2)
unfolding busy async_task_engine.Scheduler.less
busy_state = (refl, refl, refl)

-- The same, shut down.
abbrev closed : Run 2
unfolding busy
closed = record { last = _; reach = later (later busy.reach shuts) (notifies_all 0 refl) }

no_forgotten_task_example : 1 ≤ 2 + attentive 2 busy.last.consumer
unfolding busy
no_forgotten_task_example = no_forgotten_task busy.reach 0 (omega arith) refl refl

delivered_or_queued_example : Perm busy.last.accepted (busy.last.taken ++ busy.last.scheduler.queue)
delivered_or_queued_example = delivered_or_queued busy.reach

Reach-serial_example :
    (run (all_calls busy.reach) create ≡ busy.last.scheduler)
    × (answers (all_calls busy.reach) create
        ≡ accepted true
          ∷ accepted true
          ∷ got (some (record { func = 8; priority = critical; sequence = 1 }))
          ∷ [])
    × (handed (all_answers busy.reach) ≡ busy.last.taken)
unfolding busy async_task_engine.Scheduler.less
Reach-serial_example = Reach-serial busy.reach

released_example :
    (closed.last.consumer 0 ≢ asleep)
    × ((entered closed.last 0 (wait_and_pop closed.last.scheduler (closed.last.stop 0))).consumer 0
        ≡ returned (try_pop closed.last.scheduler).0)
unfolding closed shutdown
released_example = released closed.reach 0 (inr (refl, refl))

abbrev normal_task : PriorityTask
normal_task = record { func = 7; priority = normal; sequence = 0 }

-- A third push, of a critical task, before a consumer comes.
abbrev pressed : Run 2
unfolding busy pushed push
pressed = record { last = _; reach = later busy.reach (pushes 9 critical) }

abbrev critical_task : PriorityTask
critical_task = record { func = 9; priority = critical; sequence = 2 }

handed_first_example :
    Pops pressed.last.scheduler
      (some critical_task, record { queue = normal_task ∷ []; next_seq = 3; stopped = false })
unfolding pressed wait_and_pop empty pop_top take_top async_task_engine.Scheduler.less
handed_first_example =
    handed_first pressed.reach (omega arith) 0 (some critical_task)
      (record { queue = normal_task ∷ []; next_seq = 3; stopped = false }) refl
