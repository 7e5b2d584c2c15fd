-- ===== src/AsyncResult.antt =====
-- include/ate/async_result.hpp: `AsyncResult` and `then`, over a pool whose workers take tasks in
-- the order of submission (ThreadPool) and which stays open, so that `submit` does not throw. Values
-- and exceptions are numbers; `void` is the value 0.
pub mod System
pub mod Means
pub mod Chains
pub mod Progress
pub mod Completion
pub mod Void
pub mod Tests
use async_task_engine.Common.{
  ℕ, ◌+◌, ◌≡◌, refl, Bool, true, false, List, [], ◌∷◌, ◌++◌, Option, none, some, length,
}

-- What a task leaves in its future.
pub data Outcome : Type 0 where
  returned : (value : ℕ) → Outcome
  threw : (exception : ℕ) → Outcome

-- A future is the number of the task that fills it; a result that was moved from has none.
pub record AsyncResult : Type 0 where
  pub future : Option ℕ

-- A submitted callable: a task of the user, or the lambda of `then`, which owns the future of its
-- predecessor.
pub data Callable : Type 0 where
  plain : (body : Outcome) → Callable
  continued : (shared : Option ℕ) (cont : ℕ → Outcome) → Callable

pub record Engine : Type 0 where
  pub tasks : List Callable
  pub results : ℕ → Option Outcome

unfoldable pub valid : AsyncResult → Bool
valid r = elim r.future [ none ↦ false | some k ↦ true ]

-- The exception of `get` on a future without a shared state.
abbrev pub no_state : ℕ
no_state = 0

-- `future_.get()`: `none` if it has to wait.
unfoldable pub get : (ℕ → Option Outcome) → Option ℕ → Option Outcome
get results none = some (threw no_state)
get results (some k) = results k

-- The rest of the lambda, once `get` has returned or thrown.
unfoldable pub resume : (ℕ → Outcome) → Outcome → Outcome
resume cont (returned value) = cont value
resume cont (threw exception) = threw exception

-- The body of a task: `none` while it waits for its predecessor.
unfoldable pub call : (ℕ → Option Outcome) → Callable → Option Outcome
unfolding get resume
call results (plain body) = some body
call results (continued shared cont) = elim (get results shared) [
  | none ↦ none
  | some outcome ↦ some (resume cont outcome)
]

unfoldable pub submit : Engine → Callable → AsyncResult × Engine
submit e c = (record { future = some (length e.tasks) }, record e { tasks = e.tasks ++ c ∷ [] })

-- The new result, what is left of `*this`, and the pool.
unfoldable pub then : Engine → AsyncResult → (ℕ → Outcome) → AsyncResult × AsyncResult × Engine
unfolding submit
then e r cont =
    let (next, e') = submit e (continued r.future cont) in (next, record { future = none }, e')

unfoldable pub then_void : Engine → AsyncResult → Outcome → AsyncResult × AsyncResult × Engine
unfolding then
then_void e r outcome = then e r (λ value. outcome)
