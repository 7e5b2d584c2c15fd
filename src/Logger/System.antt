-- ===== src/Logger/System.antt =====
-- include/ate/logger.hpp: the drain thread, the threads that log and flush, and the destructor.
use async_task_engine.Common.{
  ℕ, suc, ◌≡◌, Bool, true, false, List, [], ◌∷◌, ◌++◌, Option, none, some, update, if◌then◌else◌,
}
use async_task_engine.Logger.{
  LogLevel, LogEntry, Logger, create, passes, enqueue, set_level, flush_begin, flushed, stop, Drain,
  checking, Turn, drain_turn,
}

-- A thread that may be inside `flush`, with the generation it waits for, what had been accepted
-- when it took that number, and whether the destructor called it.
pub data Flusher : Type 0 where
  idle : Flusher
  flushing : (target : ℕ) (before : List LogEntry) (closing : Bool) → Flusher

-- `accepted` and `written` are histories: what entered the queue, and what the sink was given.
pub record System : Type 0 where
  pub logger : Logger
  pub drain : Drain
  pub flusher : ℕ → Flusher
  -- the entry of a thread that is inside `log`, past the test of the level
  pub logging : ℕ → Option LogEntry
  pub accepted : List LogEntry
  pub written : List LogEntry

abbrev pub append : List LogEntry → Option LogEntry → List LogEntry
append entries none = entries
append entries (some entry) = entries ++ entry ∷ []

abbrev pub init : LogLevel → System
init min_level = record {
  logger = create min_level;
  drain = checking;
  flusher = λ i. idle;
  logging = λ i. none;
  accepted = [];
  written = [];
}

-- Thread `i` calls `log`: it loads the threshold, and goes on if the entry passes.
abbrev pub test : System → ℕ → LogEntry → System
test s i entry = record s {
  logging = update s.logging i (if passes s.logger.min_level entry then some entry else none);
}

-- Thread `i` queues its entry.
abbrev pub add : System → ℕ → LogEntry → System
add s i entry = record s {
  logger = enqueue s.logger entry;
  logging = update s.logging i none;
  accepted = s.accepted ++ entry ∷ [];
}

abbrev pub begin : System → ℕ → Bool → System
begin s i closing =
    let (target, l) = flush_begin s.logger in
    record s { logger = l; flusher = update s.flusher i (flushing target s.accepted closing) }

-- After its `flush` the destructor stops the drain thread.
abbrev pub leave : System → ℕ → Bool → System
leave s i true = record s { logger = stop s.logger; flusher = update s.flusher i idle }
leave s i false = record s { flusher = update s.flusher i idle }

abbrev pub commit : System → Turn → System
commit s t = record s { logger = t.logger; drain = t.next; written = append s.written t.wrote }

abbrev pub drains : System → System
drains s = commit s (drain_turn s.logger s.drain)

pub data Step (s : System) : System → Type 0 where
  tests : (i : ℕ) (entry : LogEntry) → s.logging i ≡ none → Step s (test s i entry)
  logs : (i : ℕ) (entry : LogEntry) → s.logging i ≡ some entry → Step s (add s i entry)
  sets : (level : LogLevel) → Step s (record s { logger = set_level s.logger level })
  begins : (i : ℕ) (closing : Bool) → s.flusher i ≡ idle → Step s (begin s i closing)
  returns :
      (i target : ℕ) (before : List LogEntry) (closing : Bool)
      → s.flusher i ≡ flushing target before closing
      → flushed s.logger target ≡ true
      → Step s (leave s i closing)
  turns : Step s (drains s)

-- The states after `n` steps of a logger that was made with a level.
pub data Reach (min_level : LogLevel) : ℕ → System → Type 0 where
  start : Reach min_level 0 (init min_level)
  later : {n : ℕ} {s t : System} → Reach min_level n s → Step s t → Reach min_level (suc n) t
