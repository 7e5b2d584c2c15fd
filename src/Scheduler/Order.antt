-- ===== src/Scheduler/Order.antt =====
-- include/ate/scheduler.hpp: `operator<` and the order of service.
use async_task_engine.Common.{
  ℕ, ◌+◌, ◌-◌, ◌*◌, ◌^◌, ltb, ◌<◌, ◌≡◌, ◌≢◌, ◌⊎◌, true, false, arith, IsStrictWeakOrder,
}
use async_task_engine.Scheduler.{TaskPriority, low, to_int, PriorityTask, less}

-- `a` is served before `b`: it has the higher priority, or the same one and was pushed earlier.
abbrev pub Before : PriorityTask → PriorityTask → Type 0
Before a b =
    (to_int b.priority < to_int a.priority)
    ⊎ ((to_int a.priority ≡ to_int b.priority) × (a.sequence < b.sequence))

pub to_int-injective : (p r : TaskPriority) → to_int p ≡ to_int r → p ≡ r
unfolding to_int
to_int-injective low r e = ground arith
to_int-injective p r e = ground arith

pub less-Before : (a b : PriorityTask) → less a b ≡ true → Before b a
unfolding less
less-Before a b h = ground arith

pub Before-less : (a b : PriorityTask) → Before b a → less a b ≡ true
unfolding less
Before-less a b h = ground arith

-- Two tasks with different sequence numbers are never tied.
pub Before-total : (a b : PriorityTask) → a.sequence ≢ b.sequence → less a b ≡ false → Before a b
unfolding less
Before-total a b ne h = ground arith

-- A number that is greater the sooner a task is to be served.
abbrev pub rank : PriorityTask → ℕ
rank t = to_int t.priority * 2 ^ 64 + (2 ^ 64 - 1 - t.sequence)

-- For sequence numbers of 64 bits `operator<` compares one number for each task, the priority
-- followed by the complement of the sequence number, so that it is the strict weak order that
-- `std::priority_queue` requires.
pub less-rank :
    (a b : PriorityTask)
    → a.sequence < 2 ^ 64
    → b.sequence < 2 ^ 64
    → less a b ≡ ltb (rank a) (rank b)
unfolding less
less-rank a b h k = ground arith

-- So it is a strict weak order whatever the sequence numbers are.
pub less-IsStrictWeakOrder : IsStrictWeakOrder less
unfolding less
less-IsStrictWeakOrder = record {
  irreflexive = λ a. ground arith;
  transitive = λ a b c e f. ground arith;
  ties = λ a b c e e' f f'. ground arith;
}
