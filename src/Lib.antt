-- ===== src/Lib.antt =====
-- async_task_engine: a model of the task engine (include/ate, src) and the theorems on it.
--
-- The program. A `ThreadPool` owns a `TaskQueue` (a deque under a mutex) and its workers; `submit`
-- puts a task into the queue, each worker runs `worker_loop`, and `shutdown` closes the queue, wakes
-- and stops the workers, which drain what is left. `AsyncResult::then` submits a task that waits for
-- the future of another one, a `Pipeline` composes its stages into one task, and a coroutine
-- (`CoroTask`) goes to the pool by `co_await pool.schedule()`, which submits its handle.
-- `AsioContext` hands callables and timers to Boost.Asio and returns futures. `PriorityScheduler` is a
-- queue of its own with priorities, `LockFreeQueue` a bounded ring for many producers and consumers,
-- and `Logger` has a thread of its own that writes what others log.
--
-- The files.
--   Common          Boolean tests, lists measured by native numbers, families indexed by a thread,
--                   the bits of machine words.
--   LockFreeQueue   include/ate/lockfree_queue.hpp. `create` is the constructor, `turn` one shared
--                   access of `try_push` or `try_pop` by a thread that stands at a `Pc`. System: any
--                   number of threads, one turn at a time, with the history of pushes and pops.
--                   Invariant, Slots, PushMoves, PopMoves, Reachable: what holds in every reachable
--                   state; Safety, Log, Delivery, Alone, Capacity, Size: what follows. Progress,
--                   PopProgress: threads that compete. Bounded: a bounded queue that is a list, the
--                   specification; Fifo: the ring against it. Solo, Sequential, Retries, Agreement,
--                   Calls: whole calls by one thread against such a list.
--   TaskQueue       include/ate/task_queue.hpp. Each function is one critical section. Fifo: sequences
--                   of calls against the list of what was pushed.
--   Task            include/ate/task.hpp, which no other part uses: a callable with a priority.
--   ThreadPool      include/ate/thread_pool.hpp, src/thread_pool.cpp. `submit`, `turn` (one step of
--                   `worker_loop`) and the stages of `shutdown`, interleaved by `Step`. Order, Closing,
--                   Wakeup, Drain: the order of starts, the invariant of a shutdown, wake-ups, the end
--                   of the workers.
--   Scheduler       include/ate/scheduler.hpp. `less` is `operator<`, `take_top` is `top` and `pop` of
--                   the heap. Order, Top, Drain, Sorted, History, Pushes: the order in which tasks leave. Heap:
--                   `std::priority_queue` as an interface (`PriorityQueue`), and the scheduler over any
--                   layout that has it (Bag, Agree). Waiters: threads inside `wait_and_pop`, `push` and
--                   `shutdown`, interleaved by `Step`; Invariant, History, Delivery, Wakeup, Priority,
--                   Shutdown: what these threads see.
--   Logger          include/ate/logger.hpp. `passes` and `enqueue` (the parts of `log`), `flush_begin`,
--                   `flushed`, `stop` and `drain_turn` (one step of `drain_loop`), interleaved in System.
--                   Invariant, Turns, Moves, Flush:
--                   the return of `flush`; Alone, Ends: the drain thread by itself. Methods: `trace` to
--                   `fatal`. Line: `default_sink`, as the bytes that it prints; Numbers, Reader, RoundTrip:
--                   reading them back.
--   AsyncResult     include/ate/async_result.hpp. `then` submits a `Callable` that waits inside a
--                   worker; System: workers that start tasks in the order of submission, as those of
--                   ThreadPool do (Order there). Means, Chains: the outcome of a chain; Progress,
--                   Completion: runs of the workers, some of which wait. Void: `AsyncResult<void>` by
--                   itself, against the value that is forgotten.
--   Execution       The pool and the futures together: the steps of ThreadPool with the bodies of the
--                   tasks, `submit` with its future or exception. Links, Quiet: who is inside which
--                   task; Submits, Refines: System of AsyncResult as the specification of the pool; Joined: the
--                   futures when the workers have left; Shutdown: workers that were asked to stop.
--   Pipeline        include/ate/pipeline.hpp. A callable is a function on the state of the rest of the
--                   program, so that the order of calls is seen; `run` pushes it onto a `TaskQueue`. Stages:
--                   what a pipeline computes.
--   CoroPromise     include/ate/coro_task.hpp. The promise types of `CoroTask<T>` and `CoroTask<void>`
--                   and their final awaiters, as two instances of `PromiseType`, which is what
--                   `CoroTask` uses of them. Void: the one against the other.
--   CoroTask        include/ate/coro_task.hpp. One coroutine: its frame, the pool tasks that hold its
--                   handle, the promise of a caller of `get`. Hops: what `get` returns. Owners: the
--                   variables that hold handles and the frames; Transfers, Ownership: who
--                   owns which frame. Crowd: many coroutines on one pool, their callers (`get` and the
--                   destructor), workers, timers of an `AsioContext` and a shutdown, interleaved by `Step`,
--                   over the `TaskQueue` and any `PromiseType`. Segments: runs of a body to its next
--                   suspension; Places, Moves, Exclusive: where the handles are; Means: what the promises
--                   hold; Progress, Settled: the steps that are left.
--   AsioContext     include/ate/asio_context.hpp. `post`, `async_after`, `delay`, the pool tasks that
--                   call `run` and the destructor, over a `boost::asio::io_context` that is a parameter
--                   (`IoContext`, with the laws that the code relies on). State, Handlers, Turns: the
--                   steps and what they keep; Once: each handler, its promise and its coroutine; Threads: the
--                   tasks inside `run` against the destructor; Ends: the destructor by itself; Constructor:
--                   the loop of the constructor on a pool whose workers take tasks and that is shut
--                   down meanwhile.
--
-- Conventions. Element values, messages, callables, time stamps and exceptions are numbers. Words of
-- 64 bits keep their wrap-around (`% 2 ^ 64`). What `accepted`, `started`, `written` and the like hold
-- is history: no operation reads it.
--
-- Bounds and fuel. The positions of the ring, the generations of the logger and the sequence numbers
-- of the scheduler are words; theorems about them ask for fewer steps than would wrap them (2^62
-- steps and a capacity of at most 2^62 for the ring, 2^64 for the others). Runs of threads take a
-- number of turns: a call on the ring 6, with 2 more for each weak exchange that fails for no reason, or 7 among others, the workers that were asked to stop 3 each and 2 for each
-- queued task, the drain thread one for each entry and at most 7 more, a coroutine one for each hop,
-- among others two for each suspension and at most five more,
-- a pool task of `AsioContext` 2 once the destructor was called. The theorems that name these numbers
-- prove that the run gets there within them.
--
-- Values that are moved from: what a move leaves is a parameter where the code reads it again, in the
-- result of a coroutine.
--
-- Not modelled. Memory orders weaker than sequential consistency, so that the acquire and release
-- pairs are taken to work as documented. The time that waits take: a timed wait may end at any point.
-- Tasks and sinks that throw or do not return, where nothing is said of them. A body that catches what `submit` throws to a coroutine,
-- which the model lets end with that exception. A
-- caller that calls `resume` itself before `get`, where many coroutines run. An `AsioContext` that is destroyed while coroutines
-- wait for its timers. Benchmarks and tests.
pub mod Common
pub mod Task
pub mod TaskQueue
pub mod ThreadPool
pub mod Execution
pub mod LockFreeQueue
pub mod Scheduler
pub mod Logger
pub mod AsyncResult
pub mod Pipeline
pub mod CoroPromise
pub mod CoroTask
pub mod AsioContext
