-- ===== src/Logger/Line/Reader.antt =====
-- include/ate/logger.hpp: an independent reader of the lines that `default_sink` prints.
use async_task_engine.Common.{ℕ, List, [], ◌∷◌, Option, none, some, ◌==◌, if◌then◌else◌}
use async_task_engine.Logger.{LogLevel, trace, debug, info, warn, error, fatal}
use async_task_engine.Logger.Line.{Bytes, codes, to_string}
use async_task_engine.Logger.Line.Numbers.{read_number}

infixl 5 ◌>>=◌
abbrev ◌>>=◌ {ℓ κ} : {A : Type ℓ} {B : Type κ} → Option A → (A → Option B) → Option B
none >>= f = none
some a >>= f = f a

pub record Line : Type 0 where
  pub level : LogLevel
  pub micros : ℕ
  pub thread : ℕ
  pub message : Bytes

-- What follows a fixed text.
abbrev pub expect : Bytes → Bytes → Option Bytes
expect [] s = some s
expect (c ∷ p) [] = none
expect (c ∷ p) (d ∷ s) = let rest = expect p s in if c == d then rest else none

abbrev pub first_of : List LogLevel → Bytes → Option (LogLevel × Bytes)
first_of [] s = none
first_of (l ∷ ls) s = elim (expect (to_string l) s) [
  | some rest ↦ some (l, rest)
  | none ↦ first_of ls s
]

abbrev pub read_level : Bytes → Option (LogLevel × Bytes)
read_level = first_of (trace ∷ debug ∷ info ∷ warn ∷ error ∷ fatal ∷ [])

-- All but the last byte.
abbrev pub drop_last : Bytes → Bytes
drop_last [] = []
drop_last (c ∷ []) = []
drop_last (c ∷ d ∷ s) = c ∷ drop_last (d ∷ s)

abbrev pub read_message : LogLevel → ℕ → ℕ × Bytes → Option Line
read_message level micros (thread, s) = do
  message ← expect (codes "] ") s
  some (record { level = level; micros = micros; thread = thread; message = drop_last message })

abbrev pub read_thread : LogLevel → ℕ × Bytes → Option Line
read_thread level (micros, s) = do
  thread ← expect (codes "] [t:") s
  read_message level micros (read_number 0 thread)

abbrev pub read_rest : LogLevel → Bytes → Option Line
read_rest level s = do micros ← expect (codes "] [") s; read_thread level (read_number 0 micros)

unfoldable pub read_line : Bytes → Option Line
read_line s = do s₁ ← expect (codes "[") s; (level, s₂) ← read_level s₁; read_rest level s₂
