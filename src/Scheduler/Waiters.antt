-- ===== src/Scheduler/Waiters.antt =====
-- include/ate/scheduler.hpp: the threads that share one `PriorityScheduler`, interleaved in any
-- order. `n` consumers call `wait_and_pop`, each with its stop token; any thread may push, pop
-- without waiting, shut down or request a stop. A step is one critical section, or one notification,
-- which comes after the mutex is released.
pub mod Invariant
pub mod History
pub mod Delivery
pub mod Wakeup
pub mod Priority
pub mod Shutdown
mod Tests
use async_task_engine.Common.{
  ℕ, suc, ◌<◌, ◌≡◌, ◌≢◌, ◌⊎◌, Bool, true, false, List, [], ◌∷◌, ◌++◌, Option, none, some, update,
}
use async_task_engine.Scheduler.{
  TaskPriority, PriorityTask, Scheduler, create, push, try_pop, wait_and_pop, shutdown,
}

-- Where a consumer stands.
pub data Consumer : Type 0 where
  outside : Consumer
  entering : Consumer  -- in `wait_and_pop`, about to take the mutex
  asleep : Consumer  -- in `wait_and_pop`, in the condition variable
  returned : Option PriorityTask → Consumer

pub record System : Type 0 where
  pub scheduler : Scheduler
  pub consumer : ℕ → Consumer
  -- whether a stop is requested of the consumer's token
  pub stop : ℕ → Bool
  -- threads in `push` that have released the mutex and not yet called `notify_one`
  pub notifiers : ℕ
  -- threads in `shutdown` that have released the mutex and not yet called `notify_all`
  pub closers : ℕ
  -- the history, oldest first: the tasks that `push` took, and those that were handed out
  pub accepted : List PriorityTask
  pub taken : List PriorityTask

unfoldable pub init : System
init = record {
  scheduler = create;
  consumer = λ _. outside;
  stop = λ _. false;
  notifiers = 0;
  closers = 0;
  accepted = [];
  taken = [];
}

-- What a notification does to a consumer.
unfoldable pub wake_up : Consumer → Consumer
wake_up asleep = entering
wake_up c = c

abbrev pub log : Option PriorityTask → List PriorityTask → List PriorityTask
log none ts = ts
log (some t) ts = ts ++ t ∷ []

-- `push`, up to the release of the mutex.
unfoldable pub pushed : System → ℕ → TaskPriority → System
pushed s func priority =
    let (ok, p) = push s.scheduler func priority in
    elim ok [
      | true ↦ record s {
        scheduler = p;
        notifiers = suc s.notifiers;
        accepted =
            s.accepted
            ++ record { func = func; priority = priority; sequence = s.scheduler.next_seq } ∷ [];
      }
      | false ↦ record s { scheduler = p }
    ]

-- `try_pop`, by any thread.
unfoldable pub popped : System → System
popped s = let (o, p) = try_pop s.scheduler in record s { scheduler = p; taken = log o s.taken }

-- What consumer `i` does when it has the mutex: it goes to sleep or returns.
unfoldable pub entered : System → ℕ → Option (Option PriorityTask × Scheduler) → System
entered s i none = record s { consumer = update s.consumer i asleep }
entered s i (some (o, p)) = record s {
  scheduler = p;
  consumer = update s.consumer i (returned o);
  taken = log o s.taken;
}

pub data Step (n : ℕ) (s : System) : System → Type 0 where
  pushes : (func : ℕ) (priority : TaskPriority) → Step n s (pushed s func priority)
  pops : Step n s (popped s)
  calls :
      (i : ℕ) (o : Option PriorityTask)
      → i < n
      → (s.consumer i ≡ outside) ⊎ (s.consumer i ≡ returned o)
      → Step n s (record s { consumer = update s.consumer i entering })
  enters :
      (i : ℕ)
      → i < n
      → s.consumer i ≡ entering
      → Step n s (entered s i (wait_and_pop s.scheduler (s.stop i)))
  -- `notify_one` wakes a sleeper, if there is one.
  notifies :
      (k i : ℕ)
      → s.notifiers ≡ suc k
      → i < n
      → s.consumer i ≡ asleep
      → Step n s (record s { notifiers = k; consumer = update s.consumer i entering })
  notifies_none :
      (k : ℕ)
      → s.notifiers ≡ suc k
      → ((i : ℕ) → i < n → s.consumer i ≢ asleep)
      → Step n s (record s { notifiers = k })
  -- A condition variable may wake a sleeper for no reason.
  wakes :
      (i : ℕ)
      → i < n
      → s.consumer i ≡ asleep
      → Step n s (record s { consumer = update s.consumer i entering })
  -- `shutdown`: the flag, then `notify_all`.
  shuts : Step n s (record s { scheduler = shutdown s.scheduler; closers = suc s.closers })
  notifies_all :
      (k : ℕ)
      → s.closers ≡ suc k
      → Step n s (record s { closers = k; consumer = λ i. wake_up (s.consumer i) })
  -- `request_stop` of a token wakes the consumer that waits with it.
  requests_stop :
      (i : ℕ)
      → i < n
      → Step n s (record s {
        stop = update s.stop i true;
        consumer = update s.consumer i (wake_up (s.consumer i));
      })

pub data Reach (n : ℕ) : System → Type 0 where
  start : Reach n init
  later : {s t : System} → Reach n s → Step n s t → Reach n t
