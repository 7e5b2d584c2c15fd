-- ===== src/Logger/Line/RoundTrip.antt =====
-- include/ate/logger.hpp: reading back the lines that `default_sink` prints.
use async_task_engine.Common.{
  ℕ, ◌%◌, ◌<◌, ◌≡◌, refl, ap, ◌∙◌, false, [], ◌∷◌, ◌++◌, some, arith, ◌==◌,
}
use async_task_engine.Logger.{LogLevel, trace, debug, info, warn, error, fatal, LogEntry}
use async_task_engine.Logger.Line.{
  Bytes, codes, to_string, padded, c_str, from_thread, default_line,
}
use async_task_engine.Logger.Line.Numbers.{read_number, read_number-digits, read_number-padded}
use async_task_engine.Logger.Line.Reader.{
  drop_last, read_thread, read_message, read_rest, read_line,
}

drop_last-append : (s : Bytes) (c : ℕ) → drop_last (s ++ c ∷ []) ≡ s
drop_last-append [] c = refl
drop_last-append (d ∷ []) c = refl
drop_last-append (d ∷ e ∷ s) c = ap (λ l. d ∷ l) (drop_last-append (e ∷ s) c)

read_line-level :
    (level : LogLevel) (s : Bytes)
    → read_line (codes "[" ++ (to_string level ++ s)) ≡ read_rest level s
unfolding read_line
read_line-level trace s = refl
read_line-level debug s = refl
read_line-level info s = refl
read_line-level warn s = refl
read_line-level error s = refl
read_line-level fatal s = refl

read_message-line :
    (level : LogLevel) (m t : ℕ) (message : Bytes)
    → read_message level m (t, codes "] " ++ (message ++ codes "\n"))
      ≡ some (record { level = level; micros = m; thread = t; message = message })
read_message-line level m t message =
    ap (λ s. some (record { level = level; micros = m; thread = t; message = s }))
      (drop_last-append message 10)

-- At a byte that is no digit a number ends.
number_ends : (n : ℕ) (s : Bytes) → read_number n (codes "]" ++ s) ≡ (n, codes "]" ++ s)
unfolding read_number
number_ends n s = refl

read_thread-line :
    (level : LogLevel) (m t : ℕ) (message : Bytes)
    → t < 10000
    → read_thread level (m, codes "] [t:" ++ from_thread t message)
      ≡ some (record { level = level; micros = m; thread = t; message = message })
read_thread-line level m t message h =
    let rest = codes " " ++ (message ++ codes "\n") in
    ap (read_message level m)
      (read_number-digits 20 t (codes "]" ++ rest) (omega arith) ∙ number_ends t rest)
    ∙ read_message-line level m t message

read_rest-line :
    (level : LogLevel) (m t : ℕ) (message : Bytes)
    → m < 1000000
    → t < 10000
    → read_rest level (codes "] [" ++ (padded 6 m ++ (codes "] [t:" ++ from_thread t message)))
      ≡ some (record { level = level; micros = m; thread = t; message = message })
read_rest-line level m t message hm ht =
    let rest = codes " [t:" ++ from_thread t message in
    ap (read_thread level)
      (read_number-padded 6 m (codes "]" ++ rest) (omega arith) ∙ number_ends m rest)
    ∙ read_thread-line level m t message ht

-- A message without a byte that is 0 is printed whole.
abbrev pub HasNoZero : Bytes → Type 0
HasNoZero [] = Unit
HasNoZero (c ∷ s) = ((c == 0) ≡ false) × HasNoZero s

c_str-HasNoZero : (s : Bytes) → HasNoZero s → c_str s ≡ s
unfolding c_str
c_str-HasNoZero [] h = refl
c_str-HasNoZero (c ∷ s) (e, h) = rw e (ap (λ l. c ∷ l) (c_str-HasNoZero s h))

-- From the line that `default_sink` prints for an entry one can read back its level, the
-- microseconds within the second, the last four digits of the hashed thread id and the message up
-- to its first byte that is 0, brackets and line ends included.
pub read_line-default_line :
    (microseconds hash : ℕ → ℕ) (text : ℕ → Bytes) (entry : LogEntry)
    → read_line (default_line microseconds hash text entry)
      ≡ some (record {
        level = entry.level;
        micros = microseconds entry.timestamp % 1000000;
        thread = hash entry.thread_id % 10000;
        message = c_str (text entry.message);
      })
unfolding default_line
read_line-default_line microseconds hash text entry =
    let m = microseconds entry.timestamp % 1000000 in
    let t = hash entry.thread_id % 10000 in
    let message = c_str (text entry.message) in
    read_line-level entry.level
      (codes "] [" ++ (padded 6 m ++ (codes "] [t:" ++ from_thread t message)))
    ∙ read_rest-line entry.level m t message (omega arith) (omega arith)
