-- ===== src/Logger/Methods.antt =====
-- include/ate/logger.hpp: the convenience methods, each of which logs at one level.
use async_task_engine.Common.{ℕ, Option, ◌≡◌, refl, none, some}
use async_task_engine.Logger.{LogLevel, LogEntry, Logger, log, create}
use async_task_engine.Logger as Levels

-- The entry that `log` builds in thread `thread_id` at time `now`.
abbrev entry_of : LogLevel → ℕ → ℕ → ℕ → LogEntry
entry_of level message now thread_id = record {
  level = level;
  message = message;
  timestamp = now;
  thread_id = thread_id;
}

module _ (l : Logger) (message now thread_id : ℕ) where
  abbrev pub trace : Option LogEntry × Logger
  trace = log l (entry_of Levels.trace message now thread_id)

  abbrev pub debug : Option LogEntry × Logger
  debug = log l (entry_of Levels.debug message now thread_id)

  abbrev pub info : Option LogEntry × Logger
  info = log l (entry_of Levels.info message now thread_id)

  abbrev pub warn : Option LogEntry × Logger
  warn = log l (entry_of Levels.warn message now thread_id)

  abbrev pub error : Option LogEntry × Logger
  error = log l (entry_of Levels.error message now thread_id)

  abbrev pub fatal : Option LogEntry × Logger
  fatal = log l (entry_of Levels.fatal message now thread_id)

below_threshold : info (create Levels.warn) 7 0 1 ≡ (none, create Levels.warn)
unfolding log Levels.passes Levels.enqueue Levels.to_int create
below_threshold = refl

at_threshold : (warn (create Levels.warn) 7 0 1).0 ≡ some (entry_of Levels.warn 7 0 1)
unfolding log Levels.passes Levels.enqueue Levels.to_int create
at_threshold = refl
