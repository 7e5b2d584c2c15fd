-- ===== src/Task.antt =====
-- include/ate/task.hpp: a callable with its priority and its name, both of which are numbers here.
pub mod Order
use async_task_engine.Common.{ℕ, Bool, ltb}

pub data Priority : Type 0 where
  high normal low : Priority

-- The underlying `std::uint8_t`
unfoldable pub to_int : Priority → ℕ
to_int high = 0
to_int normal = 1
to_int low = 2

pub record Task : Type 0 where
  pub callable : ℕ
  pub priority : Priority
  pub name : ℕ

-- The constructor from a callable, with its default arguments.
unfoldable pub create : ℕ → Priority → ℕ → Task
create fn p n = record { callable = fn; priority = p; name = n }

abbrev pub default_priority : Priority
default_priority = normal

-- `operator()`: the callable that is called.
unfoldable pub call : Task → ℕ
call t = t.callable

-- `operator<`
unfoldable pub less : Task → Task → Bool
unfolding to_int
less a b = ltb (to_int b.priority) (to_int a.priority)
