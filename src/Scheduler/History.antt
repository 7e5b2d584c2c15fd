-- ===== src/Scheduler/History.antt =====
-- include/ate/scheduler.hpp: histories of calls from the constructor.
use async_task_engine.Common.{
  ℕ, ◌+◌, ◌^◌, ◌≤◌, ◌<◌, ◌≡◌, refl, sym, subst, List, [], ◌∷◌, Option, none, some, length, arith,
}
use async_task_engine.Scheduler.{
  TaskPriority, PriorityTask, Scheduler, create, push, pop_top, try_pop, shutdown,
}
use async_task_engine.Scheduler.Drain.{IsNumbered, Pops, try_pop-Pops, push-IsNumbered}

pub data Call : Type 0 where
  pushes : (func : ℕ) (priority : TaskPriority) → Call
  pops shuts : Call

abbrev pub perform : Call → Scheduler → Scheduler
perform (pushes func priority) s = (push s func priority).1
perform pops s = (try_pop s).1
perform shuts s = shutdown s

abbrev pub run : List Call → Scheduler → Scheduler
run [] s = s
run (c ∷ cs) s = run cs (perform c s)

pub pop_top-next_seq :
    (s : Scheduler) (ts : List PriorityTask) → (pop_top s ts).1.next_seq ≡ s.next_seq
unfolding pop_top
pop_top-next_seq s [] = refl
pop_top-next_seq s (t ∷ ts) = refl

pub perform-next_seq :
    (c : Call) (s : Scheduler) → s.next_seq + 1 < 2 ^ 64 → (perform c s).next_seq ≤ s.next_seq + 1
unfolding push try_pop shutdown
perform-next_seq (pushes func priority) s few = ground arith
perform-next_seq pops s few = omega (arith, pop_top-next_seq s s.queue)
perform-next_seq shuts s few = omega arith

pub Pops-IsNumbered :
    (s : Scheduler) (r : Option PriorityTask × Scheduler) → IsNumbered s → Pops s r → IsNumbered r.1
Pops-IsNumbered s (none, t) v h = subst IsNumbered (sym h.1) v
Pops-IsNumbered s (some x, t) v h = h.2

pub perform-IsNumbered :
    (c : Call) (s : Scheduler) → s.next_seq + 1 < 2 ^ 64 → IsNumbered s → IsNumbered (perform c s)
unfolding shutdown
perform-IsNumbered (pushes func priority) s few v = push-IsNumbered s func priority v few
perform-IsNumbered pops s few v = Pops-IsNumbered s (try_pop s) v (try_pop-Pops s v)
perform-IsNumbered shuts s few v = record { distinct = v.distinct; below = v.below }

pub run-IsNumbered :
    (cs : List Call) (s : Scheduler)
    → s.next_seq + length cs < 2 ^ 64
    → IsNumbered s
    → IsNumbered (run cs s)
run-IsNumbered [] s few v = v
run-IsNumbered (c ∷ cs) s few v =
    run-IsNumbered cs (perform c s) (omega (arith, few, perform-next_seq c s (omega (arith, few))))
      (perform-IsNumbered c s (omega (arith, few)) v)

pub create-IsNumbered : IsNumbered create
unfolding create
create-IsNumbered = record { distinct = tt; below = tt }

pub create-next_seq : create.next_seq ≡ 0
unfolding create
create-next_seq = refl
