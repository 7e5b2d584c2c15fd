-- ===== src/Logger/Flush.antt =====
-- include/ate/logger.hpp: the sink at the return of `flush`, and the drain thread against `running_`.
use async_task_engine.Common.{ℕ, ◌^◌, ◌<◌, ◌≡◌, subst, Bool, true, false, List, ◌∷◌, ◌++◌, arith}
use async_task_engine.Logger.{
  LogLevel, LogEntry, Logger, enqueue, set_level, flush_begin, flushed, stop, Drain, probing,
  writing, finished, drain_turn,
}
use async_task_engine.Logger.System.{
  flushing, System, leave, tests, logs, sets, begins, returns, turns, Reach, start, later,
}
use async_task_engine.Logger.Invariant.{batch_of, Prefix, Waits}
use async_task_engine.Logger.Moves.{Reach-Inv}

-- When `flush` returns, all that had entered the queue before it took its number has been given to
-- the sink, first and in the same order; fewer than 2^64 steps were made.
pub flush-written :
    {m : LogLevel} {n : ℕ} {s : System} (i target : ℕ) (before : List LogEntry) (closing : Bool)
    → n < 2 ^ 64
    → Reach m n s
    → s.flusher i ≡ flushing target before closing
    → flushed s.logger target ≡ true
    → Prefix before s.written
unfolding flushed
flush-written {s = s} i target before closing few r e done =
    let w = subst (Waits s) e ((Reach-Inv few r).waits i) in w.3 (ground arith)

-- What the sink was given is what entered the queue, in that order, up to what the drain thread
-- has in hand and what is queued; fewer than 2^64 steps were made.
pub Reach-written :
    {m : LogLevel} {n : ℕ} {s : System}
    → n < 2 ^ 64
    → Reach m n s
    → s.accepted ≡ s.written ++ (batch_of s.drain ++ s.logger.queue)
Reach-written few r = (Reach-Inv few r).order

-- The drain thread is past the test of `running_` only if it was cleared.
abbrev pub Leaves : Drain → Bool → Type 0
Leaves probing running = running ≡ false
Leaves finished running = running ≡ false
Leaves d running = Unit {0}

leave-Leaves :
    (s : System) (i : ℕ) (closing : Bool)
    → Leaves s.drain s.logger.running
    → Leaves (leave s i closing).drain (leave s i closing).logger.running
unfolding stop
leave-Leaves s i true h = ground arith
leave-Leaves s i false h = h

turn-Leaves :
    (l : Logger) (d : Drain)
    → Leaves d l.running
    → Leaves (drain_turn l d).next (drain_turn l d).logger.running
unfolding drain_turn
turn-Leaves l (writing (entry ∷ batch) pending) h = ground arith
turn-Leaves l d h = ground arith

pub Reach-Leaves :
    {m : LogLevel} {n : ℕ} {s : System} → Reach m n s → Leaves s.drain s.logger.running
unfolding set_level flush_begin enqueue
Reach-Leaves start = tt
Reach-Leaves (later r (tests i entry e)) = Reach-Leaves r
Reach-Leaves (later r (logs i entry e)) = Reach-Leaves r
Reach-Leaves (later r (sets level)) = Reach-Leaves r
Reach-Leaves (later r (begins i closing e)) = Reach-Leaves r
Reach-Leaves (later {s = s} r (returns i target before closing e k)) =
    leave-Leaves s i closing (Reach-Leaves r)
Reach-Leaves (later {s = s} r turns) = turn-Leaves s.logger s.drain (Reach-Leaves r)
