-- ===== src/Task/Order.antt =====
-- include/ate/task.hpp: `operator<` as the comparison of a priority queue.
use async_task_engine.Common.{arith, IsStrictWeakOrder}
use async_task_engine.Task.{less}

-- The comparison is a strict weak order, so that a `std::priority_queue` of tasks is well defined.
pub less-IsStrictWeakOrder : IsStrictWeakOrder less
unfolding less
less-IsStrictWeakOrder = record {
  irreflexive = λ a. ground arith;
  transitive = λ a b c e f. ground arith;
  ties = λ a b c e e' f f'. ground arith;
}
