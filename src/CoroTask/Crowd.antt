-- ===== src/CoroTask/Crowd.antt =====
-- include/ate/coro_task.hpp and include/ate/asio_context.hpp: `m` coroutines on one pool. Coroutine `c`
-- is owned by caller `c`, which calls `get`; the pool is a `TaskQueue` of handles, `n` workers, and a
-- thread that may shut it down. The workers below `l` are inside `io_context::run` of an `AsioContext`
-- that outlives the coroutines, and call the handlers of its timers. The steps of all these threads
-- are interleaved in any order; a timer may fire at any time.
pub mod Segments
pub mod Places
pub mod Moves
pub mod Exclusive
pub mod Means
pub mod Progress
pub mod Settled
mod Tests
use async_task_engine.Common.{
  ℕ, suc, ◌<◌, ◌≤◌, ◌≡◌, Bool, true, false, List, [], ◌∷◌, Option, none, some, update,
}
use async_task_engine.AsyncResult.{Outcome, threw}
use async_task_engine.TaskQueue.{TaskQueue, empty, push, try_pop, shutdown}
use async_task_engine.CoroPromise.{PromiseType}

-- What is left of a coroutine: `co_await pool.schedule()` or `co_await asio.delay(duration)` and then
-- more, or the end, by `co_return` or by an exception that leaves the body.
pub data Script : Type 0 where
  schedule : (next : Script) → Script
  sleep : (duration : ℕ) (next : Script) → Script
  ends : (outcome : Outcome) → Script

-- A coroutine is suspended, with its handle in the variable of its caller alone, or in the pool too,
-- or in a timer too, or it is being resumed, or it is suspended at its end, or its frame was destroyed. `broken` is
-- undefined behaviour: it was resumed or destroyed while it was running, resumed after its end or
-- after its frame was destroyed, destroyed twice, or its end filled no promise.
pub data Stage : Type 0 where
  unstarted : (body : Script) → Stage
  queued : (body : Script) → Stage
  sleeping : (body : Script) → Stage
  running : (body : Script) → Stage
  finished : Stage
  destroyed : Stage
  broken : Stage

-- Where a caller stands: before `get`, in its `resume`, in `fut.get()`, past it, or past the
-- destructor of its `CoroTask`.
pub data Caller : Type 0 where
  before : Caller
  resuming : Caller
  waiting : Caller
  got : (outcome : Outcome) → Caller
  gone : Caller

pub record Crowd : Type 0 where
  pub stage : ℕ → Stage
  pub queue : TaskQueue ℕ
  -- how many timers of the `io_context` hold the handle of a coroutine
  pub timers : ℕ → ℕ
  -- the coroutine that a worker is resuming
  pub worker : ℕ → Option ℕ
  pub caller : ℕ → Caller
  pub promises : ℕ → Option Outcome

unfoldable pub init : (ℕ → Script) → Crowd
init bodies = record {
  stage = λ c. unstarted (bodies c);
  queue = empty;
  timers = λ _. 0;
  worker = λ _. none;
  caller = λ _. before;
  promises = λ _. none;
}

-- `handle.resume()`, up to the first action of the body.
unfoldable pub resumed : Stage → Stage
resumed (unstarted body) = running body
resumed (queued body) = running body
resumed (sleeping body) = running body
resumed _ = broken

-- `handle_.destroy()` in the destructor.
unfoldable pub destroy : Stage → Stage
destroy (unstarted body) = destroyed
destroy (queued body) = destroyed
destroy (sleeping body) = destroyed
destroy finished = destroyed
destroy _ = broken

-- May the caller's `CoroTask` be destroyed: it has not called `get`, or `get` has returned.
abbrev pub is_home : Caller → Bool
is_home before = true
is_home (got outcome) = true
is_home _ = false

-- What `submit` throws when the pool was shut down.
abbrev pub refused : Outcome
refused = threw 1

module _ {P : Type 0} (ty : PromiseType P) where
  -- The body ends, and the final awaiter fills the promise of the caller.
  unfoldable pub finish : Crowd → ℕ → Outcome → Crowd
  finish s c outcome =
      let promise = ty.complete (ty.set_external_promise ty.created c) outcome in
      elim (ty.final_await promise s.promises) [
        | none ↦ record s { stage = update s.stage c broken }
        | some (_, promises) ↦ record s { stage = update s.stage c finished; promises = promises }
      ]

  -- `PoolScheduler::await_suspend`, with what `push` gave. If `submit` throws, the coroutine goes
  -- on at once with that exception, which leaves the body.
  unfoldable pub await_suspend : Crowd → ℕ → Script → Bool × TaskQueue ℕ → Crowd
  unfolding finish
  await_suspend s c next (true, queue) = record s {
    queue = queue;
    stage = update s.stage c (queued next);
  }
  await_suspend s c next (false, queue) = finish (record s { queue = queue }) c refused

  -- `DelayAwaiter::await_suspend`
  unfoldable pub start_timer : Crowd → ℕ → Script → Crowd
  start_timer s c next = record s {
    timers = update s.timers c (suc (s.timers c));
    stage = update s.stage c (sleeping next);
  }

  -- The body runs to its next suspension.
  unfoldable pub segment : Crowd → ℕ → Script → Crowd
  unfolding finish await_suspend start_timer
  segment s c (ends outcome) = finish s c outcome
  segment s c (sleep duration next) = start_timer s c next
  segment s c (schedule next) = await_suspend s c next (push s.queue c)

  pub data Step (m l n : ℕ) (s : Crowd) : Crowd → Type 0 where
    gets :
        (c : ℕ)
        → c < m
        → s.caller c ≡ before
        → Step m l n s (record s {
          caller = update s.caller c resuming;
          stage = update s.stage c (resumed (s.stage c));
        })
    -- The coroutine that the caller resumed comes to its first suspension.
    suspends :
        (c : ℕ) (body : Script)
        → s.caller c ≡ resuming
        → s.stage c ≡ running body
        → Step m l n s (segment (record s { caller = update s.caller c waiting }) c body)
    takes :
        (i c : ℕ) (queue : TaskQueue ℕ)
        → l ≤ i
        → i < n
        → s.worker i ≡ none
        → try_pop s.queue ≡ (some c, queue)
        → Step m l n s (record s {
          queue = queue;
          worker = update s.worker i (some c);
          stage = update s.stage c (resumed (s.stage c));
        })
    fires :
        (i c k : ℕ)
        → i < l
        → i < n
        → s.worker i ≡ none
        → s.timers c ≡ suc k
        → Step m l n s (record s {
          timers = update s.timers c k;
          worker = update s.worker i (some c);
          stage = update s.stage c (resumed (s.stage c));
        })
    works :
        (i c : ℕ) (body : Script)
        → i < n
        → s.worker i ≡ some c
        → s.stage c ≡ running body
        → Step m l n s (segment (record s { worker = update s.worker i none }) c body)
    receives :
        (c : ℕ) (outcome : Outcome)
        → s.caller c ≡ waiting
        → s.promises c ≡ some outcome
        → Step m l n s (record s { caller = update s.caller c (got outcome) })
    destroys :
        (c : ℕ)
        → c < m
        → is_home (s.caller c) ≡ true
        → Step m l n s (record s {
          caller = update s.caller c gone;
          stage = update s.stage c (destroy (s.stage c));
        })
    shuts : Step m l n s (record s { queue = shutdown s.queue })

  -- The pool is shut down.
  abbrev pub is_shuts : {m l n : ℕ} {s t : Crowd} → Step m l n s t → Bool
  is_shuts shuts = true
  is_shuts _ = false

  pub data Reach (m l n : ℕ) (bodies : ℕ → Script) : Crowd → Type 0 where
    start : Reach m l n bodies (init bodies)
    later : {s t : Crowd} → Reach m l n bodies s → Step m l n s t → Reach m l n bodies t
