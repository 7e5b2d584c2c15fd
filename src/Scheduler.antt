-- ===== src/Scheduler.antt =====
-- include/ate/scheduler.hpp: `PriorityScheduler`. Each function is the body of one critical section.
-- A callable is a number. `std::priority_queue` is the list of its elements; `top` is an element
-- that no other exceeds.
pub mod Order
pub mod Top
pub mod Drain
pub mod Sorted
pub mod History
pub mod Heap
pub mod Pushes
pub mod Waiters
pub mod Tests
use async_task_engine.Common.{
  ℕ, ◌+◌, ◌%◌, ◌^◌, Bool, true, false, not, ◌&&◌, ◌||◌, List, [], ◌∷◌, Option, none, some, length,
  ltb, ◌==◌, if◌then◌else◌,
}

pub data TaskPriority : Type 0 where
  low normal high critical : TaskPriority

-- `static_cast<int>`
unfoldable pub to_int : TaskPriority → ℕ
to_int low = 0
to_int normal = 1
to_int high = 2
to_int critical = 3

pub record PriorityTask : Type 0 where
  pub func : ℕ
  pub priority : TaskPriority
  pub sequence : ℕ

-- `operator<`
unfoldable pub less : PriorityTask → PriorityTask → Bool
unfolding to_int
less a b =
    if not (to_int a.priority == to_int b.priority)
    then ltb (to_int a.priority) (to_int b.priority)
    else ltb b.sequence a.sequence

pub record Scheduler : Type 0 where
  pub queue : List PriorityTask
  pub next_seq : ℕ
  pub stopped : Bool

unfoldable pub create : Scheduler
create = record { queue = []; next_seq = 0; stopped = false }

unfoldable pub push : Scheduler → ℕ → TaskPriority → Bool × Scheduler
push s func priority = if s.stopped then (false, s) else (
  true,
  record s {
    queue = record { func = func; priority = priority; sequence = s.next_seq } ∷ s.queue;
    next_seq = (s.next_seq + 1) % 2 ^ 64;
  },
)

-- The greatest of the element in hand and a list, and all the others.
unfoldable pub take_top : PriorityTask → List PriorityTask → PriorityTask × List PriorityTask
take_top t [] = (t, [])
take_top t (u ∷ us) =
    let (best, rest) = take_top (if less t u then u else t) us in
    (best, (if less t u then t else u) ∷ rest)

-- `top`, moved out, and `pop`
unfoldable pub pop_top : Scheduler → List PriorityTask → Option PriorityTask × Scheduler
unfolding take_top
pop_top s [] = (none, s)
pop_top s (t ∷ ts) = let (best, rest) = take_top t ts in (some best, record s { queue = rest })

unfoldable pub try_pop : Scheduler → Option PriorityTask × Scheduler
try_pop s = pop_top s s.queue

unfoldable pub empty : List PriorityTask → Bool
empty [] = true
empty (_ ∷ _) = false

-- What the thread does while it holds the mutex: `none` if it goes to sleep.
unfoldable pub wait_and_pop : Scheduler → Bool → Option (Option PriorityTask × Scheduler)
unfolding empty
wait_and_pop s stop_requested =
    if not stop_requested && not (not (empty s.queue) || s.stopped)
    then none
    else some (if empty s.queue then (none, s) else pop_top s s.queue)

unfoldable pub shutdown : Scheduler → Scheduler
shutdown s = record s { stopped = true }

unfoldable pub size : Scheduler → ℕ
size s = length s.queue
