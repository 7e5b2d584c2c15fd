-- ===== src/Logger/Line.antt =====
-- include/ate/logger.hpp: the line that `default_sink` prints. A text is the list of its bytes.
-- What other code computes is a parameter: the microseconds of a time stamp, the hash of a thread
-- id, the bytes of a message.
pub mod Numbers
pub mod Reader
pub mod RoundTrip
mod Tests
use Prim.Native.Char.{code}
use Prim.Native.String.{String}
use async_task_engine.Common.{
  ℕ, zero, suc, ◌+◌, ◌-◌, ◌/◌, ◌%◌, List, [], ◌∷◌, ◌++◌, length, ◌==◌, if◌then◌else◌,
}
use async_task_engine.Logger.{LogLevel, trace, debug, info, warn, error, fatal, LogEntry}

abbrev pub Bytes : Type 0
Bytes = List ℕ

-- The code points of a literal, which are its bytes when the text is ASCII.
abbrev pub codes : String → Bytes
codes String.[] = []
codes (String.◌∷◌ c s) = code c ∷ codes s

abbrev pub to_string : LogLevel → Bytes
to_string trace = codes "TRACE"
to_string debug = codes "DEBUG"
to_string info = codes "INFO "
to_string warn = codes "WARN "
to_string error = codes "ERROR"
to_string fatal = codes "FATAL"

-- `%zu`: the decimal digits of a number with at most `places` of them.
unfoldable pub digits : ℕ → ℕ → Bytes
digits zero n = []
digits (suc places) n =
    let front = digits places (n / 10) in
    (if n / 10 == 0 then [] else front) ++ (b'0' + n % 10) ∷ []

unfoldable pub zeros : ℕ → Bytes
zeros zero = []
zeros (suc k) = b'0' ∷ zeros k

-- `%0*ld` with this width, for a number that is not negative
unfoldable pub padded : ℕ → ℕ → Bytes
unfolding digits zeros
padded width n = let ds = digits 20 n in zeros (width - length ds) ++ ds

-- `%s` of `c_str()`: the bytes before the first that is 0.
unfoldable pub c_str : Bytes → Bytes
c_str [] = []
c_str (c ∷ s) = let rest = c_str s in if c == 0 then [] else c ∷ rest

-- The line from the thread number on.
abbrev pub from_thread : ℕ → Bytes → Bytes
from_thread thread message = digits 20 thread ++ (codes "] " ++ (message ++ codes "\n"))

module _ (microseconds hash : ℕ → ℕ) (text : ℕ → Bytes) where
  unfoldable pub default_line : LogEntry → Bytes
  unfolding digits padded c_str
  default_line entry =
      codes "["
      ++ (to_string entry.level
          ++ (codes "] ["
              ++ (padded 6 (microseconds entry.timestamp % 1000000)
                  ++ (codes "] [t:"
                      ++ from_thread (hash entry.thread_id % 10000) (c_str (text entry.message))))))
