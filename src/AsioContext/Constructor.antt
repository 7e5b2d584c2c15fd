-- ===== src/AsioContext/Constructor.antt =====
-- include/ate/asio_context.hpp: the loop of the constructor, which submits its tasks to a pool whose
-- workers take tasks meanwhile, and that another thread may shut down.
use async_task_engine.Common.{
  ℕ, zero, suc, ◌≡◌, Bool, true, false, List, [], ◌∷◌, ◌++◌, Option, none, some, if◌then◌else◌,
}
use async_task_engine.TaskQueue.{TaskQueue, push, try_pop, shutdown}

-- The queue of the pool, and the tasks that its workers have taken, oldest first.
pub record PoolView : Type 0 where
  pub queue : TaskQueue ℕ
  pub taken : List ℕ

-- What other threads do to the pool.
pub data Act : Type 0 where
  takes shuts : Act

abbrev pub note : Option ℕ → List ℕ → List ℕ
note none ts = ts
note (some t) ts = ts ++ t ∷ []

unfoldable pub act : Act → PoolView → PoolView
act takes p = let (o, q) = try_pop p.queue in record { queue = q; taken = note o p.taken }
act shuts p = record p { queue = shutdown p.queue }

abbrev pub acts : List Act → PoolView → PoolView
acts [] p = p
acts (a ∷ later) p = acts later (act a p)

-- `submit` throws out of the constructor, or all tasks are submitted.
pub data Built : Type 0 where
  complete thrown : Built

-- For each submission, what happened to the pool since the one before; then the pool and the number
-- of the next task, the task being a call of `run` on this context.
unfoldable pub submit_all : List (List Act) → PoolView → ℕ → Built × PoolView
submit_all [] p i = (complete, p)
submit_all (meanwhile ∷ later) p i =
    let p' = acts meanwhile p in
    let (ok, q) = push p'.queue i in
    let rest = submit_all later (record p' { queue = q }) (suc i) in
    if ok then rest else (thrown, record p' { queue = q })

abbrev pub numbers : ℕ → ℕ → List ℕ
numbers i zero = []
numbers i (suc k) = i ∷ numbers (suc i) k

abbrev pub has_shut : List Act → Bool
has_shut [] = false
has_shut (takes ∷ later) = has_shut later
has_shut (shuts ∷ later) = true

-- Whether the pool was shut down before the last submission, and how many came before that.
abbrev pub interrupted : List (List Act) → Bool
interrupted [] = false
interrupted (meanwhile ∷ later) =
    let rest = interrupted later in if has_shut meanwhile then true else rest

abbrev pub submitted : List (List Act) → ℕ
submitted [] = 0
submitted (meanwhile ∷ later) =
    let rest = submitted later in if has_shut meanwhile then 0 else suc rest

-- All tasks that the pool has accepted, in the order in which they came.
abbrev pub all_tasks : PoolView → List ℕ
all_tasks p = p.taken ++ p.queue.tasks

-- What the loop makes of an open pool.
abbrev pub Submits : List (List Act) → PoolView → ℕ → Built × PoolView → Type 0
Submits moments p i (built, p') =
    (built ≡ (if interrupted moments then thrown else complete))
    × (all_tasks p' ≡ all_tasks p ++ numbers i (submitted moments))
    × (p'.queue.is_shutdown ≡ interrupted moments)
