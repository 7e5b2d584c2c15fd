-- ===== src/AsyncResult/Void.antt =====
-- include/ate/async_result.hpp: `AsyncResult<void>` by itself, against `AsyncResult<T>` with the value
-- forgotten.
use async_task_engine.Common.{ℕ, ◌≡◌, refl, ap, ◌∙◌, Bool, true, false, Option, none, some}
use async_task_engine.AsyncResult.{Outcome, returned, threw, no_state, get, resume, call, continued}

-- What a future of `void` holds.
pub data VoidOutcome : Type 0 where
  completed : VoidOutcome
  failed : (exception : ℕ) → VoidOutcome

-- The shared state that `future_` refers to, if it has one; the pool is the one of the model.
pub record VoidResult : Type 0 where
  pub future : Option ℕ

unfoldable pub valid_void : VoidResult → Bool
valid_void r = elim r.future [ none ↦ false | some k ↦ true ]

-- `get` of `AsyncResult<void>`: `none` if it has to wait.
unfoldable pub get_void : (ℕ → Option VoidOutcome) → Option ℕ → Option VoidOutcome
get_void results none = some (failed no_state)
get_void results (some k) = results k

-- `wait` returns when `get` would.
unfoldable pub wait_void : (ℕ → Option VoidOutcome) → VoidResult → Bool
unfolding get_void
wait_void results r = elim (get_void results r.future) [ none ↦ false | some c ↦ true ]

-- The rest of the lambda of `AsyncResult<void>::then`, once `get` has returned or thrown.
unfoldable pub resume_void : Outcome → VoidOutcome → Outcome
resume_void cont completed = cont
resume_void cont (failed exception) = threw exception

-- The lambda: `none` while it waits for its predecessor.
unfoldable pub call_void : (ℕ → Option VoidOutcome) → Option ℕ → Outcome → Option Outcome
unfolding get_void resume_void
call_void results shared cont = elim (get_void results shared) [
  | none ↦ none
  | some c ↦ some (resume_void cont c)
]

abbrev pub forget : Outcome → VoidOutcome
forget (returned value) = completed
forget (threw exception) = failed exception

abbrev pub forget_result : Option Outcome → Option VoidOutcome
forget_result none = none
forget_result (some o) = some (forget o)

get_void-forget :
    (results : ℕ → Option Outcome) (shared : Option ℕ)
    → get_void (λ k. forget_result (results k)) shared ≡ forget_result (get results shared)
unfolding get_void get
get_void-forget results none = refl
get_void-forget results (some k) = refl

resume_void-forget : (o cont : Outcome) → resume_void cont (forget o) ≡ resume (λ value. cont) o
unfolding resume_void resume
resume_void-forget (returned value) cont = refl
resume_void-forget (threw exception) cont = refl

finish_call :
    (o : Option Outcome) (cont : Outcome)
    → elim (forget_result o) as (λ x. Option Outcome) [
      | none ↦ none
      | some c ↦ some (resume_void cont c)
    ]
      ≡ elim o as (λ x. Option Outcome) [ none ↦ none | some r ↦ some (resume (λ value. cont) r) ]
finish_call none cont = refl
finish_call (some o) cont = ap some (resume_void-forget o cont)

-- A continuation on `AsyncResult<void>` acts as one on `AsyncResult<T>` that ignores the value: it
-- waits for the same future, is called under the same outcomes and passes the same exceptions on.
pub call_void-forget :
    (results : ℕ → Option Outcome) (shared : Option ℕ) (cont : Outcome)
    → call_void (λ k. forget_result (results k)) shared cont
      ≡ call results (continued shared (λ value. cont))
unfolding call_void call
call_void-forget results shared cont =
    ap (λ o. elim o as (λ x. Option Outcome) [ none ↦ none | some c ↦ some (resume_void cont c) ])
      (get_void-forget results shared)
    ∙ finish_call (get results shared) cont
