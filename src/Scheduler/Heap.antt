-- ===== src/Scheduler/Heap.antt =====
-- include/ate/scheduler.hpp: `std::priority_queue` as an interface, and the scheduler over it.
-- The client sees `push`, `empty`, `top` and `pop`; how the elements lie in the vector is hidden.
pub mod Bag
pub mod Agree
pub mod Tests
use mathlib.Core.List.{Perm}
use async_task_engine.Common.{
  ℕ, ◌+◌, ◌%◌, ◌^◌, ◌≡◌, Bool, true, false, List, [], ◌∷◌, ◌++◌, Option, none, some, length,
  if◌then◌else◌,
}
use async_task_engine.Scheduler.{
  TaskPriority, PriorityTask, Scheduler, less, push, try_pop, shutdown, size,
}
use async_task_engine.Scheduler.History.{Call, pushes, pops, shuts}
use async_task_engine.Scheduler.Top.{All}

-- What `top` with `pop` promises of a queue with these elements.
abbrev pub Tops :
    {H : Type 0} → (H → List PriorityTask) → List PriorityTask → Option (PriorityTask × H) → Type 0
Tops items l none = l ≡ []
Tops items l (some (t, h)) = Perm l (t ∷ items h) × All (λ u. less t u ≡ false) (items h)

pub record PriorityQueue : Type 1 where
  pub Layout : Type 0
  pub items : Layout → List PriorityTask
  pub nothing : Layout
  pub insert : PriorityTask → Layout → Layout
  pub take : Layout → Option (PriorityTask × Layout)
  pub items-nothing : items nothing ≡ []
  pub items-insert : (t : PriorityTask) (h : Layout) → Perm (items (insert t h)) (t ∷ items h)
  pub take-Tops : (h : Layout) → Tops items (items h) (take h)

-- What a call answers.
pub data Answer : Type 0 where
  accepted : Bool → Answer
  popped : Option PriorityTask → Answer
  done : Answer

-- A call on the scheduler whose queue is a list, with its answer.
abbrev pub call : Call → Scheduler → Answer × Scheduler
call (pushes func priority) s = let (b, s') = push s func priority in (accepted b, s')
call pops s = let (o, s') = try_pop s in (popped o, s')
call shuts s = (done, shutdown s)

abbrev pub answers : List Call → Scheduler → List Answer
answers [] s = []
answers (c ∷ cs) s = let (a, s') = call c s in a ∷ answers cs s'

abbrev pub handed_by : Answer → List PriorityTask
handed_by (popped (some t)) = t ∷ []
handed_by _ = []

-- The tasks in a list of answers.
abbrev pub handed : List Answer → List PriorityTask
handed [] = []
handed (a ∷ rest) = handed_by a ++ handed rest

module _ (q : PriorityQueue) where
  -- `PriorityScheduler` with this queue
  pub record Hidden : Type 0 where
    pub heap : q.Layout
    pub next_seq : ℕ
    pub stopped : Bool

  abbrev pub hidden_create : Hidden
  hidden_create = record { heap = q.nothing; next_seq = 0; stopped = false }

  abbrev pub hidden_pop : Hidden → Option (PriorityTask × q.Layout) → Answer × Hidden
  hidden_pop s none = (popped none, s)
  hidden_pop s (some (t, h)) = (popped (some t), record s { heap = h })

  abbrev pub hidden_call : Call → Hidden → Answer × Hidden
  hidden_call (pushes func priority) s = if s.stopped then (accepted false, s) else (
    accepted true,
    record s {
      heap = q.insert (record { func = func; priority = priority; sequence = s.next_seq }) s.heap;
      next_seq = (s.next_seq + 1) % 2 ^ 64;
    },
  )
  hidden_call pops s = hidden_pop s (q.take s.heap)
  hidden_call shuts s = (done, record s { stopped = true })

  abbrev pub hidden_answers : List Call → Hidden → List Answer
  hidden_answers [] s = []
  hidden_answers (c ∷ cs) s = let (a, s') = hidden_call c s in a ∷ hidden_answers cs s'
