-- ===== src/AsyncResult/Completion.antt =====
-- include/ate/async_result.hpp: runs of the workers while nobody submits.
use async_task_engine.Common.{
  ℕ, zero, suc, ◌+◌, ◌-◌, ◌≤◌, ◌<◌, ◌≡◌, refl, sym, subst, inl, inr, true, some, length,
  count_below, count_below-update, arith,
}
use async_task_engine.AsyncResult.System.{
  System, open_yet, Work, starts, finishes, works, Reach, later,
}
use async_task_engine.AsyncResult.Means.{Inv, Reach-Inv, get_elem?-lt}
use async_task_engine.AsyncResult.Progress.{Filled, first_open, Inv-progress}

-- What is left for the workers: tasks to start and futures to fill.
abbrev pub left : System → ℕ
left s =
    length s.engine.tasks
    - s.started
    + count_below open_yet (length s.engine.tasks) s.engine.results

Work-left : {n : ℕ} {s t : System} → Work n s t → Inv s → suc (left t) ≤ left s
Work-left {n} {s} (starts lt free) v = omega (arith, lt)
Work-left {n} {s} (finishes k c o lt fresh e r) v =
    let moved =
      count_below-update open_yet (length s.engine.tasks) s.engine.results k (some o)
        (get_elem?-lt s.engine.tasks k c e) in
    let was : open_yet (s.engine.results k) ≡ true = rw fresh refl in ground (arith, moved, was)

Work-tasks : {n : ℕ} {s t : System} → Work n s t → t.engine.tasks ≡ s.engine.tasks
Work-tasks (starts lt free) = refl
Work-tasks (finishes k c o lt fresh e r) = refl

-- Turns of the workers in a row.
pub data Runs (n : ℕ) : ℕ → System → System → Type 0 where
  rest : (s : System) → Runs n 0 s s
  work : {j : ℕ} {s t u : System} → Work n s t → Runs n j t u → Runs n (suc j) s u

-- Once nobody submits, the workers can make only so many moves, in whatever order they come: one
-- for each task that was not started and one for each that has not finished.
pub Runs-left : {n j : ℕ} {s t : System} → Reach n s → Runs n j s t → j + left t ≤ left s
Runs-left r (rest s) = omega arith
Runs-left r (work w ws) = omega (arith, Work-left w (Reach-Inv r), Runs-left (later r (works w)) ws)

-- One move, and then all the others.
completed_by :
    (n fuel : ℕ) (s t : System)
    → Work n s t
    → ((j : ℕ) × (u : System) × Runs n j t u
        × ((k : ℕ) → k < length t.engine.tasks → Filled u.engine.results k))
    → (j : ℕ) × (u : System) × Runs n j s u
      × ((k : ℕ) → k < length s.engine.tasks → Filled u.engine.results k)
completed_by n fuel s t w (j, u, ws, filled) =
    (suc j, u, work w ws, λ k lt. filled k (subst (λ xs. k < length xs) (sym (Work-tasks w)) lt))

completed :
    (n fuel : ℕ) (s : System)
    → 0 < n
    → Reach n s
    → left s ≤ fuel
    → (j : ℕ) × (t : System) × Runs n j s t
      × ((k : ℕ) → k < length s.engine.tasks → Filled t.engine.results k)
completed n zero s workers r fits = elim (first_open (length s.engine.tasks) s.engine.results) [
  | inl (k, lt, (e, before)) ↦
      let (t, w) = Inv-progress n s k workers (Reach-Inv r) lt e in
      ground (arith, Work-left w (Reach-Inv r))
  | inr (none_open, filled) ↦ (0, s, rest s, filled)
]
completed n (suc fuel) s workers r fits =
    elim (first_open (length s.engine.tasks) s.engine.results) [
      | inl (k, lt, (e, before)) ↦
          let (t, w) = Inv-progress n s k workers (Reach-Inv r) lt e in
          completed_by n fuel s t w (
            completed n fuel t workers (later r (works w))
              (omega (arith, fits, Work-left w (Reach-Inv r))))
      | inr (none_open, filled) ↦ (0, s, rest s, filled)
    ]

-- With at least one worker, every reachable state has a run of the workers that fills all futures.
-- No chain of `then` keeps the workers waiting for one another.
pub completes :
    {n : ℕ} {s : System}
    → 0 < n
    → Reach n s
    → (j : ℕ) × (t : System) × Runs n j s t
      × ((k : ℕ) → k < length s.engine.tasks → Filled t.engine.results k)
completes {n} {s} workers r = completed n (left s) s workers r (omega arith)
