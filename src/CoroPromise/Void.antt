-- ===== src/CoroPromise/Void.antt =====
-- include/ate/coro_task.hpp: the promise type and the final awaiter of `CoroTask<void>`, against
-- those of a `CoroTask` of numbers whose value is 0.
use async_task_engine.Common.{ℕ, ◌≡◌, true, false, Option, none, some, arith}
use async_task_engine.AsyncResult.{Outcome, returned, threw}
use async_task_engine.CoroPromise.{
  CoroPromise, complete, has_result, get_result, final_await, VoidPromise, return_void,
  unhandled_exception, has_void_result, get_void_result, final_await_void, complete_void,
}

-- The same promise with a value.
abbrev pub with_value : VoidPromise → CoroPromise
with_value p = record {
  result = elim p.completed [ true ↦ some 0 | false ↦ none ];
  exception = p.exception;
  external_promise = p.external_promise;
}

abbrev pub end_value : Option ℕ → Outcome
end_value none = returned 0
end_value (some e) = threw e

-- At the end of a body, `CoroTask<void>` fills the promise of its caller, answers `has_result` and
-- `get_result` as a `CoroTask` of numbers does that returns 0 or throws the same exception.
pub final_await_void-final_await :
    (p : VoidPromise) (end : Option ℕ) (promises : ℕ → Option Outcome)
    → (let v = complete_void p (end_value end) in
        let q = complete (with_value p) (end_value end) in
        (final_await (λ x. x) q promises ≡ some (q, final_await_void v promises))
        × (has_result q ≡ has_void_result v)
        × (get_result (λ x. x) q ≡ some (get_void_result v, q)))
unfolding complete_void final_await final_await_void complete has_result has_void_result get_result
    get_void_result return_void unhandled_exception
final_await_void-final_await p none promises = ground arith
final_await_void-final_await p (some e) promises = ground arith
