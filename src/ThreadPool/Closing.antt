-- ===== src/ThreadPool/Closing.antt =====
-- src/thread_pool.cpp: what `shutdown` brings about, and what a worker may assume of it.
use async_task_engine.Common.{ℕ, ◌<◌, ◌≡◌, ◌≢◌, refl, ◌⊎◌, Bool, true, false, [], some, arith}
use async_task_engine.TaskQueue.{TaskQueue, empty, push, try_pop, wait_and_pop, shutdown}
use async_task_engine.ThreadPool.{
  Worker, testing, asleep, draining, running_last, exited, resting, flagged, stopping, Pool, init,
  wake_up, submit, Turn, turn, Step, submits, works, flags, notifies_all, stops, rests, Reach,
  start, later,
}
use async_task_engine.ThreadPool.Order.{turn-Taken}

-- Past the main loop.
abbrev pub is_leaving : Worker → Bool
is_leaving draining = true
is_leaving (running_last _) = true
is_leaving exited = true
is_leaving _ = false

pub record IsClosing (s : Pool) : Type 0 where
  pub begun : s.closer ≢ resting → s.queue.is_shutdown ≡ true
  pub stopped : (i : ℕ) → s.stop i ≡ true → s.queue.is_shutdown ≡ true
  pub leaving : (i : ℕ) → is_leaving (s.worker i) ≡ true → s.stop i ≡ true
  pub alert : (i : ℕ) → s.stop i ≡ true → s.worker i ≢ asleep
  pub sleepers : (i : ℕ) → s.queue.is_shutdown ≡ true → s.worker i ≡ asleep → s.closer ≡ flagged
  pub served : (i k : ℕ) → s.closer ≡ stopping k → i < k → s.stop i ≡ true
  pub drained : (i : ℕ) → s.worker i ≡ exited → s.queue.tasks ≡ []

init-IsClosing : IsClosing init
unfolding init empty
init-IsClosing = record {
  begun = λ h. absurd (h refl);
  stopped = λ i h. cc;
  leaving = λ i h. cc;
  alert = λ i h. cc;
  sleepers = λ i h e. cc;
  served = λ i k e h. cc;
  drained = λ i e. cc;
}

-- What a turn can make of a worker.
record Moved (q : TaskQueue ℕ) (stop : Bool) (w : Worker) (t : Turn) : Type 0 where
  awake : w ≢ asleep
  leaving : is_leaving t.next ≡ true → (is_leaving w ≡ true) ⊎ (stop ≡ true)
  asleep : t.next ≡ asleep → (stop ≡ false) × (q.is_shutdown ≡ false)
  exited : t.next ≡ exited → t.queue.tasks ≡ []

turn-Moved :
    (q : TaskQueue ℕ) (stop : Bool) (w : Worker) (t : Turn)
    → turn q stop w ≡ some t
    → Moved q stop w t
unfolding turn try_pop wait_and_pop
turn-Moved q stop testing t e = ground arith
turn-Moved q stop w t e = ground arith

module _ {n : ℕ} {s : Pool} where
  Step-begun :
      {t : Pool} → Step n s t → IsClosing s → t.closer ≢ resting → t.queue.is_shutdown ≡ true
  unfolding submit push shutdown
  Step-begun (submits task) v h = ground (arith, v.begun)
  Step-begun (works i t lt e) v h =
      ground (arith, turn-Taken s.queue (s.stop i) (s.worker i) t e, v.begun)
  Step-begun (notifies_all e) v h = v.begun (λ r. cc)
  Step-begun (stops i e lt) v h = v.begun (λ r. cc)
  Step-begun st v h = ground (arith, v.begun)

  Step-stopped :
      {t : Pool} → Step n s t → IsClosing s → (j : ℕ) → t.stop j ≡ true → t.queue.is_shutdown ≡ true
  unfolding submit push shutdown
  Step-stopped (submits task) v j h = ground (arith, v.stopped j)
  Step-stopped (works i t lt e) v j h =
      ground (arith, turn-Taken s.queue (s.stop i) (s.worker i) t e, v.stopped j)
  Step-stopped (stops i e lt) v j h = ground (arith, v.begun, v.stopped j)
  Step-stopped st v j h = ground (arith, v.stopped j)

  Step-leaving :
      {t : Pool}
      → Step n s t
      → IsClosing s
      → (j : ℕ) → is_leaving (t.worker j) ≡ true
      → t.stop j ≡ true
  unfolding submit push shutdown wake_up
  Step-leaving (submits task) v j h = ground (arith, v.leaving j)
  Step-leaving (works i t lt e) v j h =
      ground (arith, turn-Moved s.queue (s.stop i) (s.worker i) t e, v.leaving j, v.leaving i)
  Step-leaving st v j h = ground (arith, v.leaving j)

  Step-alert :
      {t : Pool} → Step n s t → IsClosing s → (j : ℕ) → t.stop j ≡ true → t.worker j ≢ asleep
  unfolding submit push shutdown wake_up
  Step-alert (submits task) v j h = ground (arith, v.alert j)
  Step-alert (works i t lt e) v j h =
      ground (arith, turn-Moved s.queue (s.stop i) (s.worker i) t e, v.alert j)
  Step-alert st v j h = ground (arith, v.alert j)

  Step-sleepers :
      {t : Pool}
      → Step n s t
      → IsClosing s
      → (j : ℕ) → t.queue.is_shutdown ≡ true
      → t.worker j ≡ asleep
      → t.closer ≡ flagged
  unfolding submit push shutdown wake_up
  Step-sleepers (submits task) v j h a = ground (arith, v.sleepers j)
  Step-sleepers (works i t lt e) v j h a = ground (
    arith,
    turn-Moved s.queue (s.stop i) (s.worker i) t e,
    turn-Taken s.queue (s.stop i) (s.worker i) t e,
    v.sleepers j,
  )
  Step-sleepers (stops i e lt) v j h a = ground (arith, v.sleepers j)
  Step-sleepers (notifies_all e) v j h a = ground (arith, v.sleepers j)
  Step-sleepers (rests e) v j h a = ground (arith, v.sleepers j)
  Step-sleepers (flags e) v j h a = ground (arith, v.sleepers j)
  Step-sleepers st v j h a = ground (arith, v.sleepers j)

  Step-served :
      {t : Pool}
      → Step n s t
      → IsClosing s
      → (j k : ℕ) → t.closer ≡ stopping k
      → j < k
      → t.stop j ≡ true
  unfolding submit push shutdown wake_up
  Step-served (submits task) v j k e h = ground (arith, v.served j k)
  Step-served (stops i e' lt) v j k e h = ground (arith, v.served j i)
  Step-served st v j k e h = ground (arith, v.served j k)

  Step-drained :
      {t : Pool} → Step n s t → IsClosing s → (j : ℕ) → t.worker j ≡ exited → t.queue.tasks ≡ []
  unfolding submit push shutdown wake_up
  Step-drained (submits task) v j e = ground (arith, v.drained j, v.leaving j, v.stopped j)
  Step-drained (works i t lt e') v j e = ground (
    arith,
    turn-Moved s.queue (s.stop i) (s.worker i) t e',
    turn-Taken s.queue (s.stop i) (s.worker i) t e',
    v.drained j,
  )
  Step-drained st v j e = ground (arith, v.drained j)

  pub Step-IsClosing : {t : Pool} → Step n s t → IsClosing s → IsClosing t
  Step-IsClosing st v = record {
    begun = Step-begun st v;
    stopped = Step-stopped st v;
    leaving = Step-leaving st v;
    alert = Step-alert st v;
    sleepers = Step-sleepers st v;
    served = Step-served st v;
    drained = Step-drained st v;
  }

pub Reach-IsClosing : {n : ℕ} {s : Pool} → Reach n s → IsClosing s
Reach-IsClosing start = init-IsClosing
Reach-IsClosing (later r st) = Step-IsClosing st (Reach-IsClosing r)
