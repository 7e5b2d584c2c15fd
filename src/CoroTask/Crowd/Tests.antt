-- ===== src/CoroTask/Crowd/Tests.antt =====
-- include/ate/coro_task.hpp: two coroutines on a pool of two workers.
use async_task_engine.Common.{
  ℕ, ◌+◌, ◌≤◌, ◌<◌, ◌≡◌, ◌≢◌, ◌⊎◌, refl, true, some, arith, ℕ_discrete, ◌==◌, if◌then◌else◌,
}
use async_task_engine.AsyncResult.{returned}
use async_task_engine.TaskQueue.{empty, push, try_pop, shutdown}
use async_task_engine.CoroPromise.{CoroPromise, PromiseType, value_promise, complete, final_await}
use async_task_engine.CoroTask.Crowd.{
  Script, schedule, sleep, ends, broken, destroyed, resuming, Crowd, init, resumed, refused, finish,
  await_suspend, segment, gets, suspends, takes, works, receives,
}
use async_task_engine.CoroTask.Crowd.Places.{times}
use async_task_engine.CoroTask.Crowd.Exclusive.{resumed_by_one}
use async_task_engine.CoroTask.Crowd.Means.{got_outcome}
use async_task_engine.CoroTask.Crowd.Progress.{work_left}
use async_task_engine.CoroTask.Crowd.Settled.{
  IsReturned, Run, begins, goes, stops, Moves, Run-Reach, every_get_returns,
}

-- One goes to the pool and returns 7; the other goes there, sleeps and returns 9.
abbrev bodies : ℕ → Script
bodies c = if c == 0 then schedule (ends (returned 7)) else schedule (sleep 100 (ends (returned 9)))

-- A move leaves 0 of a value.
abbrev gone_promise : PromiseType CoroPromise
gone_promise = value_promise (λ v. 0)

record State (k : ℕ) : Type 0 where
  last : Crowd
  run : Run gone_promise 2 1 2 bodies k last

-- Worker 0 is inside the `io_context`. Both are in the queue; worker 1 resumes the first.
abbrev busy : State 5
unfolding init empty resumed segment await_suspend push try_pop ℕ_discrete
busy = record {
  last = _;
  run =
      goes
        (goes
          (goes
            (goes (goes begins (gets 0 (omega arith) refl) refl) (gets 1 (omega arith) refl) refl)
            (suspends 0 (bodies 0) refl refl) refl)
          (suspends 1 (bodies 1) refl refl) refl)
        (takes 1 0 _ (omega arith) (omega arith) refl refl) refl;
}

-- The pool is shut down, worker 1 goes on, and the first caller has its result.
abbrev served : State 7
unfolding busy finish segment complete final_await ℕ_discrete
served = record {
  last = _;
  run =
      goes (goes (stops busy.run) (works 1 0 _ (omega arith) refl refl) refl)
        (receives 0 (returned 7) refl refl) refl;
}

resumed_by_one_example :
    (busy.last.stage 0 ≢ broken)
    × (times 0 busy.last.queue.tasks + busy.last.timers 0 ≤ 1)
    × ((i : ℕ)
        → i < 2
        → busy.last.worker i ≡ some 0
        → (busy.last.caller 0 ≢ resuming)
          × (times 0 busy.last.queue.tasks + busy.last.timers 0 ≡ 0)
          × (busy.last.stage 0 ≢ destroyed)
          × ((j : ℕ) → j < 2 → busy.last.worker j ≡ some 0 → i ≡ j))
    × (busy.last.stage 0 ≡ destroyed → times 0 busy.last.queue.tasks + busy.last.timers 0 ≡ 0)
resumed_by_one_example = resumed_by_one gone_promise (Run-Reach gone_promise busy.run) 0

got_outcome_example : (returned 7 ≡ returned 7) ⊎ ((returned 7 ≡ refused) × (true ≡ true))
unfolding served shutdown
got_outcome_example =
    got_outcome gone_promise bodies (Run-Reach gone_promise served.run) 0 (returned 7) refl

every_get_returns_example :
    (7 + work_left 2 served.last ≤ work_left 2 (init bodies))
    × (Moves gone_promise 2 1 2 served.last ⊎ ((c : ℕ) → c < 2 → IsReturned served.last c))
every_get_returns_example = every_get_returns gone_promise served.run (omega arith) (omega arith)
