-- ===== src/Logger.antt =====
-- include/ate/logger.hpp: `Logger`. Each function is what a thread does between two points where
-- another thread may come in: a critical section, an access of an atomic, a call of the sink.
-- Messages, time stamps and thread ids are numbers.
pub mod System
pub mod Invariant
pub mod Turns
pub mod Moves
pub mod Flush
pub mod Alone
pub mod Ends
pub mod Line
pub mod Methods
pub mod Tests
use async_task_engine.Common.{
  ℕ, ◌+◌, ◌%◌, ◌^◌, Bool, true, false, not, List, [], ◌∷◌, ◌++◌, Option, none, some, ltb, leb,
  if◌then◌else◌,
}

pub data LogLevel : Type 0 where
  trace debug info warn error fatal : LogLevel

-- `static_cast<int>`
unfoldable pub to_int : LogLevel → ℕ
to_int trace = 0
to_int debug = 1
to_int info = 2
to_int warn = 3
to_int error = 4
to_int fatal = 5

pub record LogEntry : Type 0 where
  pub level : LogLevel
  pub message : ℕ
  pub timestamp : ℕ
  pub thread_id : ℕ

pub record Logger : Type 0 where
  pub min_level : LogLevel
  pub running : Bool
  pub queue : List LogEntry
  pub flush_gen_pending : ℕ
  pub flush_gen_done : ℕ

unfoldable pub create : LogLevel → Logger
create min_level = record {
  min_level = min_level;
  running = true;
  queue = [];
  flush_gen_pending = 0;
  flush_gen_done = 0;
}

-- The test of an entry against the value that was loaded from `min_level_`.
unfoldable pub passes : LogLevel → LogEntry → Bool
unfolding to_int
passes loaded entry = not (ltb (to_int entry.level) (to_int loaded))

-- The critical section of `log`.
unfoldable pub enqueue : Logger → LogEntry → Logger
enqueue l entry = record l { queue = l.queue ++ entry ∷ [] }

-- `log` with no other thread in between: the entry that was queued, if it passes.
unfoldable pub log : Logger → LogEntry → Option LogEntry × Logger
unfolding passes enqueue
log l entry = if passes l.min_level entry then (some entry, enqueue l entry) else (none, l)

unfoldable pub set_level : Logger → LogLevel → Logger
set_level l level = record l { min_level = level }

-- The first critical section of `flush`, and the generation that it waits for.
unfoldable pub flush_begin : Logger → ℕ × Logger
flush_begin l =
    let target = (l.flush_gen_pending + 1) % 2 ^ 64 in
    (target, record l { flush_gen_pending = target })

-- What `flush` waits for.
unfoldable pub flushed : Logger → ℕ → Bool
flushed l target = leb target l.flush_gen_done

-- The destructor, once its `flush` has returned and before the join.
unfoldable pub stop : Logger → Logger
stop l = record l { running = false }

unfoldable pub queue_empty : List LogEntry → Bool
queue_empty [] = true
queue_empty (_ ∷ _) = false

-- Where the drain thread stands in `drain_loop`: about to load `running_`, to call `queue_empty`,
-- to come out of the wait (which ends after 10 ms at the latest), to write the batch that is left
-- and then publish `pending`; or past the loop.
pub data Drain : Type 0 where
  checking probing waiting : Drain
  writing : (batch : List LogEntry) (pending : ℕ) → Drain
  finished : Drain

pub record Turn : Type 0 where
  pub next : Drain
  pub logger : Logger
  pub wrote : Option LogEntry

unfoldable pub drain_turn : Logger → Drain → Turn
unfolding queue_empty
drain_turn l checking = record {
  next = (if l.running then waiting else probing);
  logger = l;
  wrote = none;
}
drain_turn l probing = record {
  next = (if queue_empty l.queue then finished else waiting);
  logger = l;
  wrote = none;
}
drain_turn l waiting = record {
  next = writing l.queue l.flush_gen_pending;
  logger = record l { queue = [] };
  wrote = none;
}
drain_turn l (writing (entry ∷ batch) pending) = record {
  next = writing batch pending;
  logger = l;
  wrote = some entry;
}
drain_turn l (writing [] pending) = record {
  next = checking;
  logger = record l { flush_gen_done = pending };
  wrote = none;
}
drain_turn l finished = record { next = finished; logger = l; wrote = none }
