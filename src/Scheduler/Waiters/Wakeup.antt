-- ===== src/Scheduler/Waiters/Wakeup.antt =====
-- include/ate/scheduler.hpp: `push` notifies one consumer, after it has released the mutex.
use async_task_engine.Common.{
  ℕ, ◌<◌, ◌≤◌, ◌+◌, ◌≡◌, ◌⊎◌, inl, inr, refl, Bool, false, [], some, none, arith, length, Option,
  ap, List, ◌∷◌, count_below-update,
}
use async_task_engine.Scheduler.{
  PriorityTask, Scheduler, create, push, pop_top, try_pop, wait_and_pop, shutdown, empty,
}
use async_task_engine.Scheduler.Sorted.{take_top-length}
use async_task_engine.Scheduler.Waiters.{
  entering, asleep, returned, System, init, wake_up, pushed, popped, entered, Step, pushes, pops,
  calls, enters, notifies, notifies_none, wakes, shuts, notifies_all, requests_stop, Reach, start,
  later,
}
use async_task_engine.Scheduler.Waiters.Invariant.{
  IsAlert, Reach-IsAlert, is_entering, attentive, wait_and_pop-none, wait_and_pop-stopped,
  try_pop-stopped,
}

pop_top-fewer :
    (s : Scheduler) (ts : List PriorityTask)
    → s.queue ≡ ts
    → ((pop_top s ts).1.queue ≡ []) ⊎ (length (pop_top s ts).1.queue + 1 ≡ length s.queue)
unfolding pop_top
pop_top-fewer s [] e = inl e
pop_top-fewer s (t ∷ ts) e = inr (omega (arith, take_top-length t ts, ap length e))

-- A consumer that returns leaves the queue empty, or has taken a task.
wait_and_pop-fewer :
    (s p : Scheduler) (stop : Bool) (o : Option PriorityTask)
    → wait_and_pop s stop ≡ some (o, p)
    → (p.queue ≡ []) ⊎ (length p.queue + 1 ≡ length s.queue)
unfolding wait_and_pop empty
wait_and_pop-fewer s p stop o e = ground (arith, pop_top-fewer s s.queue refl)

abbrev Covered : ℕ → System → Type 0
Covered n s = length s.scheduler.queue ≤ s.notifiers + attentive n s.consumer

abbrev IsCovered : ℕ → System → Type 0
IsCovered n s = (i : ℕ) → i < n → s.scheduler.stopped ≡ false → s.consumer i ≡ asleep → Covered n s

module _ {n : ℕ} (s : System) (ih : IsCovered n s) where
  entered-IsCovered :
      (i : ℕ) (w : Option (Option PriorityTask × Scheduler))
      → i < n
      → s.consumer i ≡ entering
      → wait_and_pop s.scheduler (s.stop i) ≡ w
      → IsCovered n (entered s i w)
  unfolding entered
  entered-IsCovered i none lt at e j ltj up a =
      let (off, up, nothing) = wait_and_pop-none s.scheduler (s.stop i) e in ground (arith, nothing)
  entered-IsCovered i (some (o, p)) lt at e j ltj up a =
      let same = wait_and_pop-stopped s.scheduler p (s.stop i) o e in
      let fewer = wait_and_pop-fewer s.scheduler p (s.stop i) o e in
      ground (arith, ih j, count_below-update is_entering n s.consumer i (returned o) lt)

  Step-IsCovered : {t : System} → IsAlert s → Step n s t → IsCovered n t
  unfolding pushed push popped try_pop shutdown wake_up
  Step-IsCovered v (pushes func priority) j lt up a = ground (arith, ih j)
  Step-IsCovered v pops j lt up a = ground (
    arith,
    ih j,
    pop_top-fewer s.scheduler s.scheduler.queue refl,
    try_pop-stopped s.scheduler s.scheduler.queue,
  )
  Step-IsCovered v (calls i o lti e) j lt up a =
      ground (arith, ih j, count_below-update is_entering n s.consumer i entering lti)
  Step-IsCovered v (enters i lti e) j lt up a =
      entered-IsCovered i (wait_and_pop s.scheduler (s.stop i)) lti e refl j lt up a
  Step-IsCovered v (notifies k i e lti ai) j lt up a =
      ground (arith, ih j, ih i, count_below-update is_entering n s.consumer i entering lti)
  Step-IsCovered v (notifies_none k e nobody) j lt up a = absurd (nobody j lt a)
  Step-IsCovered v (wakes i lti ai) j lt up a =
      ground (arith, ih j, ih i, count_below-update is_entering n s.consumer i entering lti)
  Step-IsCovered v shuts j lt up a = cc
  Step-IsCovered v (notifies_all k e) j lt up a = ground arith
  Step-IsCovered v (requests_stop i lti) j lt up a =
      ground
        (arith, ih j, count_below-update is_entering n s.consumer i (wake_up (s.consumer i)) lti)

-- While the scheduler is open and some consumer sleeps in `wait_and_pop`, each queued task has a
-- notification on its way or a consumer that is about to look at the queue.
pub no_forgotten_task :
    {n : ℕ} {s : System}
    → Reach n s
    → (i : ℕ) → i < n
    → s.scheduler.stopped ≡ false
    → s.consumer i ≡ asleep
    → length s.scheduler.queue ≤ s.notifiers + attentive n s.consumer
unfolding init create
no_forgotten_task start i lt up a = omega arith
no_forgotten_task (later r st) i lt up a =
    Step-IsCovered _ (no_forgotten_task r) (Reach-IsAlert r) st i lt up a
