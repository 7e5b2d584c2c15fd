-- ===== src/AsyncResult/System.antt =====
-- include/ate/async_result.hpp: `n` workers that start the tasks in order and may wait inside them.
use async_task_engine.Common.{
  ℕ, suc, ◌<◌, ◌≡◌, Bool, true, false, [], Option, none, some, length, get_elem?, update,
  count_below,
}
use async_task_engine.AsyncResult.{Outcome, Callable, plain, Engine, call, submit, then}

-- `started` tasks, the first ones, have been given to a worker.
pub record System : Type 0 where
  pub engine : Engine
  pub started : ℕ

abbrev pub open_yet : Option Outcome → Bool
open_yet none = true
open_yet (some o) = false

-- The workers that are inside a task.
abbrev pub busy : System → ℕ
busy s = count_below open_yet s.started s.engine.results

abbrev pub init : System
init = record { engine = record { tasks = []; results = λ k. none }; started = 0 }

abbrev pub finish : System → ℕ → Outcome → System
finish s k o = record s {
  engine = record s.engine { results = update s.engine.results k (some o) };
}

-- What the workers do.
pub data Work (n : ℕ) (s : System) : System → Type 0 where
  starts :
      s.started < length s.engine.tasks
      → busy s < n
      → Work n s (record s { started = suc s.started })
  finishes :
      (k : ℕ) (c : Callable) (o : Outcome)
      → k < s.started
      → s.engine.results k ≡ none
      → get_elem? s.engine.tasks k ≡ some c
      → call s.engine.results c ≡ some o
      → Work n s (finish s k o)

-- What the user does: submit a task, or continue the result of one that was submitted.
pub data Step (n : ℕ) (s : System) : System → Type 0 where
  submits : (o : Outcome) → Step n s (record s { engine = (submit s.engine (plain o)).1 })
  thens :
      (k : ℕ) (cont : ℕ → Outcome)
      → k < length s.engine.tasks
      → Step n s (record s { engine = (then s.engine (record { future = some k }) cont).2 })
  works : {t : System} → Work n s t → Step n s t

pub data Reach (n : ℕ) : System → Type 0 where
  start : Reach n init
  later : {s t : System} → Reach n s → Step n s t → Reach n t
