-- ===== src/CoroTask/Tests.antt =====
-- include/ate/coro_task.hpp: a `void` coroutine that goes to the pool twice and then throws.
use async_task_engine.Common.{
  ℕ, ◌<◌, ◌≡◌, Option, none, some, true, false, refl, update, ℕ_discrete,
}
use async_task_engine.AsyncResult.{Outcome, returned, threw}
use async_task_engine.CoroPromise.{
  CoroPromise, complete, final_await, get_result, PromiseType, value_promise, final_await_void,
  complete_void, VoidPromise, void_promise,
}
use async_task_engine.CoroTask.{
  Body, schedule, ends, World, get_return_object, done, get_begin, resume, pool_turn, frame_done,
  resume_handle, run_body, finished_result, attach,
}
use async_task_engine.CoroTask.Owners.{
  Heap, empty, destroy_frame, construct, call, move_assign, destroy, Operation, calls, adopts,
  assigns, destroys, run_operation, Initialises, IsMoveOnly, Reach, start, later,
}
use async_task_engine.CoroTask.Ownership.{owners-exclusive}
use async_task_engine.CoroTask.Hops.{pool_turns, get-hops}

abbrev twice : Body
twice = schedule (schedule (ends (threw 3)))

abbrev no_promises : ℕ → Option Outcome
no_promises id = none

get-hops_example :
    (let (t, w) = get_return_object void_promise twice no_promises in
      (w₁ : World VoidPromise) × (get_begin void_promise t w 5 ≡ some (none, w₁))
      × ((k : ℕ)
          → k < 2
          → (w' : World VoidPromise) × (pool_turns void_promise k w₁ ≡ some w')
            × (w'.pool ≡ 1)
            × (w'.promises ≡ no_promises))
      × (w₂ : World VoidPromise) × (pool_turns void_promise 2 w₁ ≡ some w₂)
      × (w₂.promises 5 ≡ some (threw 3))
      × (w₂.pool ≡ 0)
      × (done void_promise t w₂ ≡ some true)
      × (w₃ : World VoidPromise) × (get_begin void_promise t w₂ 6 ≡ some (some (threw 3), w₃)))
get-hops_example = get-hops void_promise twice no_promises 5 6

-- A coroutine that returns 41, of a type of which a move leaves 0, as it leaves the empty string: the
-- first `get` has its promise filled with 41, and the second returns 0.
abbrev string_promise : PromiseType CoroPromise
string_promise = value_promise (λ v. 0)

second_get :
    (let (t, w) = get_return_object string_promise (ends (returned 41)) no_promises in
      (w₁ : World CoroPromise) × (w₂ : World CoroPromise) × (get_begin string_promise t w 5
        ≡ some (none, w₁))
      × (w₁.promises 5 ≡ some (returned 41))
      × (get_begin string_promise t w₁ 6 ≡ some (some (returned 0), w₂)))
unfolding get_return_object get_begin done resume attach frame_done resume_handle run_body complete
    finished_result final_await get_result ℕ_discrete
second_get = (_, _, refl, refl, refl)

-- Two coroutines; the variable of the first is assigned that of the second.
abbrev two_frames : Heap
two_frames = call (call empty 0) 1

abbrev assigned : Heap
assigned = record two_frames {
  handles = update (update two_frames.handles 1 none) 0 (some 1);
  alive = update two_frames.alive 0 false;
}

assigned-made : run_operation two_frames (assigns 0 1) ≡ some assigned
unfolding run_operation move_assign destroy_frame construct call ℕ_discrete
assigned-made = refl

assigned-Reach : Reach assigned
unfolding run_operation construct call ℕ_discrete
assigned-Reach =
    later (assigns 0 1) (later (calls 1) (later (calls 0) start tt refl refl) tt refl refl) tt tt
      assigned-made

-- `CoroTask b(a.handle())`: both variables destroy the one frame.
second_owner :
    (let w = construct (call empty 0) 1 (some 0) in
      let v = record w { handles = update w.handles 0 none; alive = update w.alive 0 false } in
      (run_operation (call empty 0) (adopts 1 0) ≡ some w)
      × (run_operation w (destroys 0) ≡ some v)
      × (run_operation v (destroys 1) ≡ none))
unfolding run_operation construct call destroy destroy_frame ℕ_discrete
second_owner = (refl, refl, refl)

owners-exclusive_example :
    ((op : Operation)
      → IsMoveOnly op
      → Initialises assigned op
      → (w' : Heap) × (run_operation assigned op ≡ some w'))
    × ((x h : ℕ) → assigned.handles x ≡ some h → assigned.alive h ≡ true)
    × ((h : ℕ)
        → assigned.alive h ≡ true
        → (x : ℕ) × (assigned.handles x ≡ some h) × ((y : ℕ) → assigned.handles y ≡ some h → x ≡ y))
owners-exclusive_example = owners-exclusive assigned assigned-Reach

-- A coroutine that goes to the pool once, after `resume`: its handle is in the pool.
abbrev parked : World VoidPromise
parked = record {
  frame = some (record { promise = void_promise.created; rest = some (ends (threw 3)) });
  pool = 1;
  promises = no_promises;
}

-- `get` then resumes it to its end, while the pool still holds the handle.
abbrev overtaken : World VoidPromise
overtaken = record {
  frame = some (record {
    promise =
        void_promise.complete (void_promise.set_external_promise void_promise.created 5) (threw 3);
    rest = none;
  });
  pool = 1;
  promises = update no_promises 5 (some (threw 3));
}

-- The worker that takes the handle resumes a coroutine that has ended.
resume-get :
    (let (t, w) = get_return_object void_promise (schedule (ends (threw 3))) no_promises in
      (resume void_promise t w ≡ some parked)
      × (get_begin void_promise t parked 5 ≡ some (none, overtaken))
      × (pool_turn void_promise overtaken 1 ≡ none))
unfolding get_return_object resume get_begin pool_turn frame_done resume_handle run_body done
    finished_result attach final_await_void complete_void
resume-get = (refl, refl, refl)
