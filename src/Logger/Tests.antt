-- ===== src/Logger/Tests.antt =====
-- include/ate/logger.hpp: a logger that is given two entries, one below its level, and flushed by
-- its destructor.
use async_task_engine.Common.{◌+◌, ◌≡◌, refl, true, false, [], ◌∷◌, ◌++◌, length, arith, ℕ_discrete}
use async_task_engine.Logger.{
  debug, info, warn, LogEntry, create, passes, enqueue, flush_begin, flushed, stop, checking,
  drain_turn,
}
use async_task_engine.Logger.System.{
  flushing, System, init, test, add, begin, leave, drains, tests, logs, begins, returns, turns,
  Reach, start, later,
}
use async_task_engine.Logger.Invariant.{batch_of, Prefix}
use async_task_engine.Logger.Flush.{flush-written, Reach-written}
use async_task_engine.Logger.Ends.{Closed, flush-Ends, close-Ends}
use async_task_engine.Logger.Alone.{Ends}

abbrev warning : LogEntry
warning = record { level = warn; message = 7; timestamp = 1; thread_id = 4 }

abbrev detail : LogEntry
detail = record { level = debug; message = 8; timestamp = 2; thread_id = 4 }

-- The destructor waits in `flush`.
abbrev flushing_now : System
flushing_now = begin (add (test (test (init info) 2 warning) 3 detail) 2 warning) 4 true

flushing_now-Reach : Reach info 4 flushing_now
unfolding passes create ℕ_discrete
flushing_now-Reach =
    later
      (later (later (later start (tests 2 warning refl)) (tests 3 detail refl))
        (logs 2 warning refl))
      (begins 4 true refl)

-- The drain thread went round its loop once.
abbrev written_out : System
written_out = drains (drains (drains (drains flushing_now)))

written_out-Reach : Reach info 8 written_out
written_out-Reach = later (later (later (later flushing_now-Reach turns) turns) turns) turns

abbrev closing : System
closing = leave written_out 4 true

written_out-flushed : flushed written_out.logger 1 ≡ true
unfolding flushed drain_turn enqueue flush_begin create ℕ_discrete
written_out-flushed = refl

written_out-flusher : written_out.flusher 4 ≡ flushing 1 (warning ∷ []) true
unfolding flushed drain_turn enqueue flush_begin create ℕ_discrete
written_out-flusher = refl

closing-Reach : Reach info 9 closing
closing-Reach =
    later written_out-Reach
      (returns 4 1 (warning ∷ []) true written_out-flusher written_out-flushed)

flush-written_example : Prefix (warning ∷ []) written_out.written
flush-written_example =
    flush-written 4 1 (warning ∷ []) true (omega arith) written_out-Reach written_out-flusher
      written_out-flushed

Reach-written_example :
    written_out.accepted
    ≡ written_out.written ++ (batch_of written_out.drain ++ written_out.logger.queue)
Reach-written_example = Reach-written (omega arith) written_out-Reach

flushing_now-flusher : flushing_now.flusher 4 ≡ flushing 1 (warning ∷ []) true
unfolding enqueue flush_begin create ℕ_discrete
flushing_now-flusher = refl

flushing_now-running : flushing_now.logger.running ≡ true
unfolding enqueue flush_begin create ℕ_discrete
flushing_now-running = refl

flush-Ends_example :
    Ends
      (λ t. flushed t.logger 1 ≡ true)
      (length (batch_of flushing_now.drain) + length flushing_now.logger.queue + 4)
      flushing_now
flush-Ends_example =
    flush-Ends 4 1 (warning ∷ []) true (omega arith) flushing_now-Reach flushing_now-flusher
      flushing_now-running

closing-stopped : closing.logger.running ≡ false
unfolding stop
closing-stopped = refl

closing-drain : closing.drain ≡ checking
unfolding drain_turn enqueue flush_begin create
closing-drain = refl

close-Ends_example :
    Ends Closed (length (batch_of closing.drain) + length closing.logger.queue + 7) closing
close-Ends_example =
    close-Ends (omega arith) closing-Reach closing-stopped (ground (arith, closing-drain))
