-- ===== src/Execution/Quiet.antt =====
-- src/thread_pool.cpp: what the steps of the pool do to the tasks that workers are inside.
use async_task_engine.Common.{
  ℕ, ◌<◌, ◌≡◌, refl, sym, ap, ◌∙◌, ◌⊎◌, inl, inr, Bool, [], ◌∷◌, ◌++◌, Option, none, some, update,
  update-at, update-other, ℕ_discrete, arith,
}
use async_task_engine.TaskQueue.{TaskQueue, try_pop, wait_and_pop}
use async_task_engine.ThreadPool.{
  Worker, testing, Pool, wake_up, Turn, turn, log, commit, Step, submits, notifies, notifies_none,
  wakes, works, flags, notifies_all, stops, rests,
}
use async_task_engine.ThreadPool.Order.{turn-Taken}
use async_task_engine.Execution.{running_task, IsQuiet}

-- A worker that leaves a task takes none out with the same turn.
pub turn-leaves :
    (q : TaskQueue ℕ) (stop : Bool) (w : Worker) (t : Turn) (k : ℕ)
    → turn q stop w ≡ some t
    → running_task w ≡ some k
    → (t.took ≡ none) × (running_task t.next ≡ none)
unfolding turn
turn-leaves q stop testing t k e h = ground arith
turn-leaves q stop w t k e h = ground arith

turn-enters :
    (q : TaskQueue ℕ) (stop : Bool) (w : Worker) (t : Turn)
    → turn q stop w ≡ some t
    → running_task w ≡ none
    → running_task t.next ≡ t.took
unfolding turn try_pop wait_and_pop
turn-enters q stop testing t e h = ground arith
turn-enters q stop w t e h = ground arith

running_task-wake_up : (w : Worker) → running_task (wake_up w) ≡ running_task w
unfolding wake_up
running_task-wake_up testing = refl
running_task-wake_up w = ground arith

-- Nothing is started.
abbrev pub Stays : Pool → Pool → Type 0
Stays s t =
    ((j : ℕ) → running_task (t.worker j) ≡ running_task (s.worker j))
    × (t.started ≡ s.started)
    × (t.accepted ≡ s.accepted)

-- A worker that was inside no task starts the first task of the queue.
abbrev pub Starts : ℕ → Pool → Pool → Type 0
Starts n s t =
    (i : ℕ) × (task : ℕ) × (i < n)
    × (running_task (s.worker i) ≡ none)
    × ((j : ℕ)
        → running_task (t.worker j) ≡ update (λ j. running_task (s.worker j)) i (some task) j)
    × (t.started ≡ s.started ++ task ∷ [])
    × (t.accepted ≡ s.accepted)
    × (s.queue.tasks ≡ task ∷ t.queue.tasks)

-- The task of an updated worker.
pub running_task-update :
    (f : ℕ → Worker) (i : ℕ) (w : Worker) (j : ℕ)
    → running_task (update f i w j) ≡ update (λ j. running_task (f j)) i (running_task w) j
running_task-update f i w j = elim (ℕ_discrete i j) [
  | yes here ↦
      ap running_task (update-at f i w j here)
      ∙ sym (update-at (λ j. running_task (f j)) i (running_task w) j here)
  | no other ↦
      ap running_task (update-other f i w j other)
      ∙ sym (update-other (λ j. running_task (f j)) i (running_task w) j other)
]

-- A worker that is inside as much as before.
running_task-same :
    (f : ℕ → Worker) (i : ℕ) (w : Worker) (j : ℕ)
    → running_task w ≡ running_task (f i)
    → running_task (update f i w j) ≡ running_task (f j)
running_task-same f i w j e = elim (ℕ_discrete i j) [
  | yes here ↦ ap running_task (update-at f i w j here) ∙ e ∙ ap (λ k. running_task (f k)) here
  | no other ↦ ap running_task (update-other f i w j other)
]

works-cases :
    (n : ℕ) (s : Pool) (i : ℕ) (t : Turn) (took : Option ℕ)
    → t.took ≡ took
    → i < n
    → turn s.queue (s.stop i) (s.worker i) ≡ some t
    → running_task (s.worker i) ≡ none
    → Stays s (commit s i t) ⊎ Starts n s (commit s i t)
works-cases n s i t none none_taken lt e h =
    let entered = turn-enters s.queue (s.stop i) (s.worker i) t e h in
    inl (
      λ j. running_task-same s.worker i t.next j (entered ∙ none_taken ∙ sym h),
      ap (log s.started) none_taken,
      refl,
    )
works-cases n s i t (some task) taken lt e h =
    let entered = turn-enters s.queue (s.stop i) (s.worker i) t e h in
    let head = turn-Taken s.queue (s.stop i) (s.worker i) t e in
    inr (
      i,
      task,
      lt,
      h,
      λ j.
          running_task-update s.worker i t.next j
          ∙ ap (λ o. update (λ j. running_task (s.worker j)) i o j) (entered ∙ taken),
      ap (log s.started) taken,
      refl,
      sym head.0 ∙ ap (λ o. log [] o ++ t.queue.tasks) taken,
    )

module _ {n : ℕ} {s : Pool} where
  pub IsQuiet-cases : {t : Pool} (st : Step n s t) → IsQuiet st → Stays s t ⊎ Starts n s t
  IsQuiet-cases (submits task) h = elim h [ ]
  IsQuiet-cases (notifies k i e lt f) h =
      inl (λ j. running_task-same s.worker i _ j (ap running_task (sym f)), refl, refl)
  IsQuiet-cases (notifies_none k e f) h = inl (λ j. refl, refl, refl)
  IsQuiet-cases (wakes i lt f) h =
      inl (λ j. running_task-same s.worker i _ j (ap running_task (sym f)), refl, refl)
  IsQuiet-cases (works i t lt e) h = works-cases n s i t t.took refl lt e h
  IsQuiet-cases (flags e) h = inl (λ j. refl, refl, refl)
  IsQuiet-cases (notifies_all e) h = inl (λ j. running_task-wake_up (s.worker j), refl, refl)
  IsQuiet-cases (stops i e lt) h =
      inl (λ j. running_task-same s.worker i _ j (running_task-wake_up (s.worker i)), refl, refl)
  IsQuiet-cases (rests e) h = inl (λ j. refl, refl, refl)
