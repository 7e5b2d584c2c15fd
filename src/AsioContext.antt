-- ===== src/AsioContext.antt =====
-- include/ate/asio_context.hpp: `AsioContext`, its timers and posts, over a `boost::asio::io_context`
-- that is a parameter. Handlers are numbered in the order in which they are handed over, the pool
-- tasks that run the context in the order in which the constructor submits them; the pool is open.
pub mod State
pub mod Handlers
pub mod Turns
pub mod Once
pub mod Threads
pub mod Ends
pub mod Constructor
pub mod Tests
use async_task_engine.Common.{
  ℕ, zero, suc, ◌≡◌, Bool, true, false, List, [], ◌∷◌, ◌++◌, Option, none, some, length, get_elem?,
  ◌==◌, ltb, if◌then◌else◌, update,
}
use async_task_engine.AsyncResult.{Outcome, returned, threw}

-- What `run` and the work guard depend on.
pub record Status : Type 0 where
  pub guarded : Bool
  pub stopped : Bool

-- The operations of `io_context` that the source uses. `poll` is what a thread inside `run` calls
-- next: a handler, with an error code that is 0 for none. `finished` tells whether `run` returns
-- when there is nothing to call. `held` tells whether the context holds a handler that it has not
-- called. The laws: a new context holds nothing; what is handed over is held; what is called was
-- held and is not held any more; a stopped context calls nothing and drops nothing; `run` returns
-- if the context is stopped, and does not if it is guarded and not stopped.
pub record IoContext (Io : Type 0) : Type 0 where
  pub fresh : Io
  pub make_work_guard : Io → Io
  pub reset : Io → Io
  pub post : Io → ℕ → Io
  pub async_wait : Io → ℕ → ℕ → Io
  pub poll : Io → Option (ℕ × ℕ × Io)
  pub stop : Io → Io
  pub finished : Io → Bool
  pub held : Io → ℕ → Bool
  pub status : Io → Status
  pub held-fresh : (k : ℕ) → held fresh k ≡ false
  pub held-make_work_guard : (io : Io) (k : ℕ) → held (make_work_guard io) k ≡ held io k
  pub held-reset : (io : Io) (k : ℕ) → held (reset io) k ≡ held io k
  pub held-post : (io : Io) (h k : ℕ) → held (post io h) k ≡ update (held io) h true k
  pub held-async_wait :
      (io : Io) (d h k : ℕ) → held (async_wait io d h) k ≡ update (held io) h true k
  pub held-poll :
      (io io' : Io) (h ec : ℕ)
      → poll io ≡ some (h, ec, io')
      → (held io h ≡ true) × ((k : ℕ) → held io' k ≡ update (held io) h false k)
  pub held-stop : (io : Io) (k : ℕ) → held (stop io) k ≡ held io k
  pub status-fresh : status fresh ≡ record { guarded = false; stopped = false }
  pub status-make_work_guard :
      (io : Io) → status (make_work_guard io) ≡ record (status io) { guarded = true }
  pub status-reset : (io : Io) → status (reset io) ≡ record (status io) { guarded = false }
  pub status-post : (io : Io) (h : ℕ) → status (post io h) ≡ status io
  pub status-async_wait : (io : Io) (d h : ℕ) → status (async_wait io d h) ≡ status io
  pub status-poll : (io io' : Io) (h ec : ℕ) → poll io ≡ some (h, ec, io') → status io' ≡ status io
  pub status-stop : (io : Io) → status (stop io) ≡ record (status io) { stopped = true }
  pub poll-stopped : (io : Io) → (status io).stopped ≡ true → poll io ≡ none
  pub finished-stopped : (io : Io) → (status io).stopped ≡ true → finished io ≡ true
  pub finished-guarded :
      (io : Io) → status io ≡ record { guarded = true; stopped = false } → finished io ≡ false

-- A callable that was handed over, with how its call ends, or a coroutine that waits in `delay`.
pub data Handler : Type 0 where
  posted : (func : Outcome) → Handler
  timed : (func : Outcome) → Handler
  delayed : Handler

-- The exceptions `runtime_error("Timer error")` and `future_error(broken_promise)`.
abbrev pub timer_error : ℕ
timer_error = 1

abbrev pub broken_promise : ℕ
broken_promise = 2

-- What the handler leaves in the promise: that of `delay` has none.
unfoldable pub call_handler : Handler → ℕ → Option Outcome
call_handler (posted func) ec = some func
call_handler (timed func) ec = some (if ec == 0 then func else threw timer_error)
call_handler delayed ec = none

-- What a handler that is never called leaves in the promise.
unfoldable pub drop_handler : Option Handler → Option Outcome
drop_handler none = none
drop_handler (some (posted func)) = some (threw broken_promise)
drop_handler (some (timed func)) = some (threw broken_promise)
drop_handler (some delayed) = none

-- Where a pool task that calls `run` stands.
pub data IoTask : Type 0 where
  queued : IoTask
  inside_run : IoTask
  run_returned : IoTask

-- Where the destructor stands: it waits for the futures one after the other.
pub data Destructor : Type 0 where
  not_called : Destructor
  awaiting : (next : ℕ) → Destructor
  destroyed : Destructor

unfoldable pub is_ready : IoTask → Bool
is_ready queued = false
is_ready inside_run = false
is_ready run_returned = true

pub record DelayAwaiter : Type 0 where
  pub duration : ℕ

-- What `delay` returns, for `co_await`.
unfoldable pub delay : ℕ → DelayAwaiter
delay d = record { duration = d }

module _ {Io : Type 0} (ctx : IoContext Io) where
  -- `resumes` counts how often the coroutine of a handler was resumed.
  pub record AsioContext : Type 0 where
    pub io_ctx : Io
    pub io_threads : ℕ
    pub io_futures : ℕ → IoTask
    pub destructor : Destructor
    pub handlers : List Handler
    pub promises : ℕ → Option Outcome
    pub resumes : ℕ → ℕ

  unfoldable pub create : ℕ → AsioContext
  create io_threads = record {
    io_ctx = ctx.make_work_guard ctx.fresh;
    io_threads = io_threads;
    io_futures = λ i. queued;
    destructor = not_called;
    handlers = [];
    promises = λ k. none;
    resumes = λ k. 0;
  }

  -- The future that is returned is the promise of this number.
  unfoldable pub post : AsioContext → Outcome → ℕ × AsioContext
  post a func = (
    length a.handlers,
    record a {
      io_ctx = ctx.post a.io_ctx (length a.handlers);
      handlers = a.handlers ++ posted func ∷ [];
    },
  )

  unfoldable pub async_after : AsioContext → ℕ → Outcome → ℕ × AsioContext
  async_after a delay func = (
    length a.handlers,
    record a {
      io_ctx = ctx.async_wait a.io_ctx delay (length a.handlers);
      handlers = a.handlers ++ timed func ∷ [];
    },
  )

  -- The coroutine is suspended and its handle handed over.
  unfoldable pub await_suspend : AsioContext → DelayAwaiter → AsioContext
  await_suspend a awaiter = record a {
    io_ctx = ctx.async_wait a.io_ctx awaiter.duration (length a.handlers);
    handlers = a.handlers ++ delayed ∷ [];
  }

  -- The promise is filled: `none` if it was filled before, which throws out of the handler.
  unfoldable pub fulfil : (ℕ → Option Outcome) → ℕ → Outcome → Option (ℕ → Option Outcome)
  fulfil promises k o = elim (promises k) [
    | none ↦ some (update promises k (some o))
    | some p ↦ none
  ]

  -- A thread inside `run` calls a handler: `none` if the handler is unknown or its promise filled.
  unfoldable pub handle : AsioContext → ℕ → ℕ → Io → Option AsioContext
  unfolding call_handler fulfil
  handle a k ec io = elim (get_elem? a.handlers k) [
    | none ↦ none
    | some h ↦ elim (call_handler h ec) [
      | none ↦ some (record a { io_ctx = io; resumes = update a.resumes k (suc (a.resumes k)) })
      | some o ↦ elim (fulfil a.promises k o) [
        | none ↦ none
        | some promises ↦ some (record a { io_ctx = io; promises = promises })
      ]
    ]
  ]

  -- A pool task that calls `run`: a worker starts it, it calls handlers, it returns.
  unfoldable pub run_turn : AsioContext → IoTask → Option (IoTask × AsioContext)
  unfolding handle
  run_turn a queued = some (inside_run, a)
  run_turn a inside_run = elim (ctx.poll a.io_ctx) [
    | none ↦ some (if ctx.finished a.io_ctx then run_returned else inside_run, a)
    | some (k, ec, io) ↦ elim (handle a k ec io) [ none ↦ none | some b ↦ some (inside_run, b) ]
  ]
  run_turn a run_returned = some (run_returned, a)

  unfoldable pub io_turn : AsioContext → ℕ → Option AsioContext
  unfolding run_turn
  io_turn a i = elim (run_turn a (a.io_futures i)) [
    | none ↦ none
    | some (t, b) ↦ some (record b { io_futures = update b.io_futures i t })
  ]

  -- The destructor: it resets the guard and stops the context, it waits for each future, and then
  -- the context goes, with the handlers that it holds and their promises.
  unfoldable pub destroy : AsioContext → Destructor → AsioContext
  unfolding is_ready drop_handler
  destroy a not_called = record a {
    io_ctx = ctx.stop (ctx.reset a.io_ctx);
    destructor = awaiting 0;
  }
  destroy a (awaiting next) =
      if ltb next a.io_threads
      then if is_ready (a.io_futures next) then record a { destructor = awaiting (suc next) } else a
      else record a {
        promises = λ k.
            if ctx.held a.io_ctx k then drop_handler (get_elem? a.handlers k) else a.promises k;
        destructor = destroyed;
      }
  destroy a destroyed = a
