-- ===== src/AsyncResult/Tests.antt =====
-- include/ate/async_result.hpp: a task and two continuations on one worker.
use async_task_engine.Common.{
  ℕ, ◌+◌, ◌<◌, ◌≡◌, refl, [], ◌∷◌, none, some, arith, ℕ_discrete, count_below,
}
use async_task_engine.AsyncResult.{Outcome, returned, plain, continued, call, submit, then}
use async_task_engine.AsyncResult.System.{
  System, finish, Work, starts, finishes, submits, thens, works, Reach, start, later,
}
use async_task_engine.AsyncResult.Chains.{compose, Chained-outcome}
use async_task_engine.AsyncResult.Progress.{Filled}
use async_task_engine.AsyncResult.Completion.{Runs, completes}

abbrev double : ℕ → Outcome
double v = returned (v + v)

abbrev chained : System
chained = record {
  engine = record {
    tasks = plain (returned 5) ∷ continued (some 0) double ∷ [];
    results = λ k. none;
  };
  started = 0;
}

chained-Reach : Reach 1 chained
unfolding submit then
chained-Reach = later (later start (submits (returned 5))) (thens 0 double (omega arith))

abbrev first_started : System
first_started = record chained { started = 1 }

first_started-Work : Work 1 chained first_started
unfolding count_below
first_started-Work = starts (omega arith) (omega arith)

abbrev first_done : System
first_done = finish first_started 0 (returned 5)

first_done-Work : Work 1 first_started first_done
unfolding call
first_done-Work = finishes 0 (plain (returned 5)) (returned 5) (omega arith) refl refl refl

abbrev second_started : System
second_started = record first_done { started = 2 }

second_started-Work : Work 1 first_done second_started
unfolding count_below ℕ_discrete
second_started-Work = starts (omega arith) (omega arith)

abbrev both_done : System
both_done = finish second_started 1 (returned 10)

both_done-Work : Work 1 second_started both_done
unfolding call ℕ_discrete
both_done-Work = finishes 1 (continued (some 0) double) (returned 10) (omega arith) refl refl refl

both_done-Reach : Reach 1 both_done
both_done-Reach =
    later
      (later (later (later chained-Reach (works first_started-Work)) (works first_done-Work))
        (works second_started-Work))
      (works both_done-Work)

first-result : both_done.engine.results 0 ≡ some (returned 5)
unfolding ℕ_discrete
first-result = refl

last-result : both_done.engine.results 1 ≡ some (returned 10)
unfolding ℕ_discrete
last-result = refl

Chained-outcome_example : returned 10 ≡ compose (returned 5) (double ∷ [])
Chained-outcome_example =
    Chained-outcome 0 1 (double ∷ []) (returned 5) (returned 10) both_done-Reach (1, refl, refl)
      first-result last-result

completes_example :
    (j : ℕ) × (t : System) × Runs 1 j chained t × ((k : ℕ) → k < 2 → Filled t.engine.results k)
completes_example = completes (omega arith) chained-Reach
