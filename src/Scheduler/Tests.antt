-- ===== src/Scheduler/Tests.antt =====
-- include/ate/scheduler.hpp: runs on a scheduler with three tasks, two of them tied in priority.
use mathlib.Core.List.{Perm}
use async_task_engine.Common.{List, length, ℕ, ◌≡◌, refl, false, [], ◌∷◌, ◌++◌, arith}
use async_task_engine.Scheduler.{
  PriorityTask, normal, critical, Scheduler, create, push, try_pop, wait_and_pop, less,
}
use async_task_engine.Scheduler.Top.{Distinct, Ordered}
use async_task_engine.Scheduler.Drain.{IsNumbered}
use async_task_engine.Scheduler.Sorted.{drain}
use async_task_engine.Scheduler.History.{Call, pushes, pops, shuts, run}
use async_task_engine.Scheduler.Heap.{answers, handed}
use async_task_engine.Scheduler.Pushes.{run-Ordered}

abbrev task : ℕ → ℕ → PriorityTask
task func sequence = record { func = func; priority = normal; sequence = sequence }

abbrev urgent : PriorityTask
urgent = record { func = 8; priority = critical; sequence = 1 }

-- Two normal tasks and, between them, a critical one.
abbrev busy : Scheduler
busy = record { queue = task 9 2 ∷ urgent ∷ task 7 0 ∷ []; next_seq = 3; stopped = false }

busy-run : (push (push (push create 7 normal).1 8 critical).1 9 normal).1 ≡ busy
unfolding push create
busy-run = refl

busy-drain : drain 3 busy ≡ urgent ∷ task 7 0 ∷ task 9 2 ∷ []
unfolding drain try_pop async_task_engine.Scheduler.pop_top less
busy-drain = refl

busy-Distinct : Distinct busy.queue
busy-Distinct = (
  ((λ e. omega (arith, e)), ((λ e. omega (arith, e)), tt)),
  (((λ e. omega (arith, e)), tt), (tt, tt)),
)

busy-IsNumbered : IsNumbered busy
busy-IsNumbered = record {
  distinct = busy-Distinct;
  below = (omega arith, (omega arith, (omega arith, tt)));
}

abbrev calls : List Call
calls = pushes 7 normal ∷ pushes 8 critical ∷ pops ∷ pushes 9 normal ∷ shuts ∷ []

run-Ordered_example :
    (let s = run calls create in
      let out = drain (length s.queue) s in
      Perm s.queue out
      × Ordered out
      × Perm (task 7 0 ∷ urgent ∷ task 9 2 ∷ []) (handed (answers calls create) ++ out))
run-Ordered_example = run-Ordered calls (omega arith)
