-- ===== src/Logger/Line/Tests.antt =====
-- include/ate/logger.hpp: a printed line, and reading it back.
use async_task_engine.Common.{ℕ, ◌/◌, ◌≡◌, refl, ◌∷◌, ◌++◌, some}
use async_task_engine.Logger.{warn, LogEntry}
use async_task_engine.Logger.Line.{Bytes, codes, digits, padded, zeros, c_str, default_line}
use async_task_engine.Logger.Line.Reader.{read_line}
use async_task_engine.Logger.Line.RoundTrip.{read_line-default_line}

abbrev entry : LogEntry
entry = record { level = warn; message = 7; timestamp = 5000042000; thread_id = 3 }

abbrev microseconds : ℕ → ℕ
microseconds t = t / 1000

abbrev hash : ℕ → ℕ
hash id = 140213

abbrev text : ℕ → Bytes
text n = codes "disk [sda] full"

entry_line :
    default_line microseconds hash text entry ≡ codes "[WARN ] [000042] [t:213] disk [sda] full\n"
unfolding default_line digits padded zeros c_str
entry_line = refl

read_line-default_line_example :
    read_line (default_line microseconds hash text entry)
    ≡ some (record { level = warn; micros = 42; thread = 213; message = codes "disk [sda] full" })
unfolding c_str
read_line-default_line_example = read_line-default_line microseconds hash text entry

-- A message with a byte that is 0 is cut there.
cut : c_str (codes "disk" ++ 0 ∷ codes " full") ≡ codes "disk"
unfolding c_str
cut = refl
