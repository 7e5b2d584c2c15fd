-- ===== src/Scheduler/Waiters/Invariant.antt =====
-- include/ate/scheduler.hpp: what holds between the critical sections of a shared scheduler.
use async_task_engine.Common.{
  ℕ, ◌≡◌, ◌≢◌, refl, Bool, true, false, [], ◌∷◌, some, none, arith, List, Option, count_below,
}
use async_task_engine.Scheduler.{
  Scheduler, create, push, try_pop, pop_top, wait_and_pop, shutdown, PriorityTask, empty,
}
use async_task_engine.Scheduler.Waiters.{
  Consumer, entering, asleep, System, init, wake_up, pushed, popped, entered, Step, pushes, pops,
  calls, enters, notifies, notifies_none, wakes, shuts, notifies_all, requests_stop, Reach, start,
  later,
}

-- About to look at the queue.
abbrev pub is_entering : Consumer → Bool
is_entering entering = true
is_entering _ = false

abbrev pub attentive : ℕ → (ℕ → Consumer) → ℕ
attentive = count_below is_entering

-- No consumer sleeps that would not have to.
pub record IsAlert (s : System) : Type 0 where
  pub closed : (i : ℕ) → s.scheduler.stopped ≡ true → s.closers ≡ 0 → s.consumer i ≢ asleep
  pub stopped : (i : ℕ) → s.stop i ≡ true → s.consumer i ≢ asleep

init-IsAlert : IsAlert init
unfolding init create
init-IsAlert = record { closed = λ i h e k. cc; stopped = λ i h e. cc }

-- Only an open scheduler, with no stop requested, puts a consumer to sleep.
pub wait_and_pop-none :
    (s : Scheduler) (stop : Bool)
    → wait_and_pop s stop ≡ none
    → (stop ≡ false) × (s.stopped ≡ false) × (s.queue ≡ [])
unfolding wait_and_pop empty
wait_and_pop-none s stop e = ground arith

pub try_pop-stopped :
    (s : Scheduler) (ts : List PriorityTask) → (pop_top s ts).1.stopped ≡ s.stopped
unfolding pop_top
try_pop-stopped s [] = refl
try_pop-stopped s (t ∷ ts) = refl

pub wait_and_pop-stopped :
    (s p : Scheduler) (stop : Bool) (o : Option PriorityTask)
    → wait_and_pop s stop ≡ some (o, p)
    → p.stopped ≡ s.stopped
unfolding wait_and_pop
wait_and_pop-stopped s p stop o e = ground (arith, try_pop-stopped s s.queue)

entered-IsAlert :
    {s : System} (i : ℕ) (w : Option (Option PriorityTask × Scheduler))
    → wait_and_pop s.scheduler (s.stop i) ≡ w
    → IsAlert s
    → IsAlert (entered s i w)
unfolding entered
entered-IsAlert {s} i none e v =
    let (on, up, _) = wait_and_pop-none s.scheduler (s.stop i) e in
    record {
      closed = λ j h k. ground (arith, v.closed j);
      stopped = λ j h. ground (arith, v.stopped j);
    }
entered-IsAlert {s} i (some (o, p)) e v =
    let same = wait_and_pop-stopped s.scheduler p (s.stop i) o e in
    record {
      closed = λ j h k. ground (arith, v.closed j);
      stopped = λ j h. ground (arith, v.stopped j);
    }

Step-IsAlert : {n : ℕ} {s t : System} → IsAlert s → Step n s t → IsAlert t
unfolding pushed popped push try_pop shutdown wake_up
Step-IsAlert {s = s} v (pushes func priority) = record {
  closed = λ i h e. ground (arith, v.closed i);
  stopped = λ i h. ground (arith, v.stopped i);
}
Step-IsAlert {s = s} v pops = record {
  closed = λ i h e. v.closed i (ground (arith, try_pop-stopped s.scheduler s.scheduler.queue)) e;
  stopped = v.stopped;
}
Step-IsAlert {s = s} v (calls i o lt e) = record {
  closed = λ j h e. ground (arith, v.closed j);
  stopped = λ j h. ground (arith, v.stopped j);
}
Step-IsAlert {s = s} v (enters i lt e) =
    entered-IsAlert i (wait_and_pop s.scheduler (s.stop i)) refl v
Step-IsAlert {s = s} v (notifies k i e lt a) = record {
  closed = λ j h e. ground (arith, v.closed j);
  stopped = λ j h. ground (arith, v.stopped j);
}
Step-IsAlert {s = s} v (notifies_none k e nobody) = record {
  closed = v.closed;
  stopped = v.stopped;
}
Step-IsAlert {s = s} v (wakes i lt a) = record {
  closed = λ j h e. ground (arith, v.closed j);
  stopped = λ j h. ground (arith, v.stopped j);
}
Step-IsAlert {s = s} v shuts = record {
  closed = λ i h e. absurd (omega (arith, e));
  stopped = v.stopped;
}
Step-IsAlert {s = s} v (notifies_all k e) = record {
  closed = λ j h e. ground arith;
  stopped = λ j h. ground arith;
}
Step-IsAlert {s = s} v (requests_stop i lt) = record {
  closed = λ j h e. ground (arith, v.closed j);
  stopped = λ j h. ground (arith, v.stopped j);
}

pub Reach-IsAlert : {n : ℕ} {s : System} → Reach n s → IsAlert s
Reach-IsAlert start = init-IsAlert
Reach-IsAlert (later r st) = Step-IsAlert (Reach-IsAlert r) st
