-- ===== src/TaskQueue/Fifo.antt =====
-- include/ate/task_queue.hpp: what a history of calls does to the queue.
use async_task_engine.Common.{
  ◌≡◌, refl, ◌∙◌, Bool, true, false, List, [], ◌∷◌, ◌++◌, append-nil, append_assoc, Option, none,
  some, arith,
}
use async_task_engine.TaskQueue.{TaskQueue, push, pop_front, try_pop, wait_and_pop, shutdown}

-- One call, as the lock orders them. `waits stop` is a turn of the wait inside `wait_and_pop`.
pub data Call {ℓ} (A : Type ℓ) : Type ℓ where
  pushes : A → Call A
  try_pops : Call A
  waits : Bool → Call A
  shuts : Call A

-- The queue after a history, with the tasks that `push` took and those that the pops returned.
pub record Trace {ℓ} (A : Type ℓ) : Type ℓ where
  pub queue : TaskQueue A
  pub taken : List A
  pub popped : List A

module _ {ℓ} {A : Type ℓ} where
  abbrev take_in : Trace A → A → Bool × TaskQueue A → Trace A
  take_in t a (true, q) = record { queue = q; taken = t.taken ++ a ∷ []; popped = t.popped }
  take_in t a (false, q) = record t { queue = q }

  abbrev hand_out : Trace A → Option A × TaskQueue A → Trace A
  hand_out t (none, q) = record t { queue = q }
  hand_out t (some a, q) = record { queue = q; taken = t.taken; popped = t.popped ++ a ∷ [] }

  abbrev after_wait : Trace A → Option (Option A × TaskQueue A) → Trace A
  after_wait t none = t
  after_wait t (some r) = hand_out t r

  unfoldable pub step : Trace A → Call A → Trace A
  step t (pushes a) = take_in t a (push t.queue a)
  step t try_pops = hand_out t (try_pop t.queue)
  step t (waits stop) = after_wait t (wait_and_pop t.queue stop)
  step t shuts = record t { queue = shutdown t.queue }

  unfoldable pub run : Trace A → List (Call A) → Trace A
  unfolding step
  run t [] = t
  run t (c ∷ cs) = run (step t c) cs

  abbrev Balanced : List A → Trace A → Type ℓ
  Balanced start t = start ++ t.taken ≡ t.popped ++ t.queue.tasks

  pop-Balanced :
      (start : List A) (t : Trace A) (tasks : List A)
      → tasks ≡ t.queue.tasks
      → Balanced start t
      → Balanced start (hand_out t (pop_front t.queue tasks))
  unfolding pop_front
  pop-Balanced start t [] e b = b
  pop-Balanced start t (a ∷ rest) e b = ground (arith, append_assoc t.popped (a ∷ []) rest)

  step-Balanced :
      (start : List A) (t : Trace A) (c : Call A) → Balanced start t → Balanced start (step t c)
  unfolding step push try_pop wait_and_pop shutdown
  step-Balanced start t (pushes a) b =
      ground
        (arith, append_assoc start t.taken (a ∷ []), append_assoc t.popped t.queue.tasks (a ∷ []))
  step-Balanced start t try_pops b = pop-Balanced start t t.queue.tasks refl b
  step-Balanced start t (waits stop) b = ground (arith, pop-Balanced start t t.queue.tasks refl b)
  step-Balanced start t shuts b = b

  run-Balanced :
      (start : List A) (t : Trace A) (cs : List (Call A))
      → Balanced start t
      → Balanced start (run t cs)
  unfolding run
  run-Balanced start t [] b = b
  run-Balanced start t (c ∷ cs) b = run-Balanced start (step t c) cs (step-Balanced start t c b)

  abbrev pub begin : TaskQueue A → Trace A
  begin q = record { queue = q; taken = []; popped = [] }

  -- After any history of calls, what the queue held at the start and what was pushed into it since
  -- is, in that order, what the pops returned followed by what the queue holds.
  pub run-fifo :
      (q : TaskQueue A) (cs : List (Call A))
      → let t = run (begin q) cs in q.tasks ++ t.taken ≡ t.popped ++ t.queue.tasks
  run-fifo q cs = run-Balanced q.tasks (begin q) cs (append-nil q.tasks)

  step-IsShut :
      (t : Trace A) (c : Call A)
      → t.queue.is_shutdown ≡ true
      → ((step t c).queue.is_shutdown ≡ true) × ((step t c).taken ≡ t.taken)
  unfolding step push try_pop wait_and_pop shutdown
  step-IsShut t c h = ground arith

  -- Once shut down, a queue stays shut and takes nothing more, whatever is called.
  pub run-shut :
      (t : Trace A) (cs : List (Call A))
      → t.queue.is_shutdown ≡ true
      → ((run t cs).queue.is_shutdown ≡ true) × ((run t cs).taken ≡ t.taken)
  unfolding run
  run-shut t [] h = (h, refl)
  run-shut t (c ∷ cs) h =
      let s = step-IsShut t c h in let r = run-shut (step t c) cs s.0 in (r.0, r.1 ∙ s.1)
