-- ===== src/CoroTask.antt =====
-- include/ate/coro_task.hpp: `CoroTask` and `PoolScheduler`, for any promise type. `none` as the result
-- of a function is undefined behaviour in the source: a null handle or a destroyed frame is used, or
-- a coroutine is resumed that has finished.
pub mod Hops
pub mod Owners
pub mod Transfers
pub mod Ownership
pub mod Crowd
pub mod Tests
use async_task_engine.Common.{ℕ, zero, suc, Bool, true, false, Option, none, some, if◌then◌else◌}
use async_task_engine.AsyncResult.{Outcome}
use async_task_engine.CoroPromise.{PromiseType}

-- What is left of a coroutine: `co_await pool.schedule()` and then more, or the end, by `co_return`
-- or by an exception that leaves the body.
pub data Body : Type 0 where
  schedule : (next : Body) → Body
  ends : (outcome : Outcome) → Body

-- The frame is at a suspension point, the last one if nothing is left.
pub record Frame (P : Type 0) : Type 0 where
  pub promise : P
  pub rest : Option Body

-- One coroutine, the tasks in the pool that hold its handle, and the promises of the callers.
pub record World (P : Type 0) : Type 0 where
  pub frame : Option (Frame P)
  pub pool : ℕ
  pub promises : ℕ → Option Outcome

-- The owner; `false` is a null handle.
pub record CoroTask : Type 0 where
  pub handle : Bool

module _ {P : Type 0} (ty : PromiseType P) where
  -- The call of the coroutine: it is suspended at its start.
  unfoldable pub get_return_object : Body → (ℕ → Option Outcome) → CoroTask × World P
  get_return_object body promises = (
    record { handle = true },
    record {
      frame = some (record { promise = ty.created; rest = some body });
      pool = 0;
      promises = promises;
    },
  )

  -- The body runs to its next suspension. `PoolScheduler::await_suspend` submits the handle.
  unfoldable pub run_body : P → Body → World P → Option (World P)
  run_body p (schedule next) w =
      some (record w { frame = some (record { promise = p; rest = some next }); pool = suc w.pool })
  run_body p (ends outcome) w =
      let p' = ty.complete p outcome in
      elim (ty.final_await p' w.promises) [
        | none ↦ none
        | some (p'', promises) ↦
            some (record w {
              frame = some (record { promise = p''; rest = none });
              promises = promises;
            })
      ]

  -- `handle.resume()`
  unfoldable pub resume_handle : World P → Option (Frame P) → Option (World P)
  unfolding run_body
  resume_handle w none = none
  resume_handle w (some f) = elim f.rest [ none ↦ none | some body ↦ run_body f.promise body w ]

  -- A worker takes a task that holds the handle and calls it.
  unfoldable pub pool_turn : World P → ℕ → Option (World P)
  unfolding resume_handle
  pool_turn w zero = some w
  pool_turn w (suc n) = resume_handle (record w { pool = n }) w.frame

  unfoldable pub frame_done : Option (Frame P) → Option Bool
  frame_done none = none
  frame_done (some f) = some (elim f.rest [ none ↦ true | some body ↦ false ])

  unfoldable pub done : CoroTask → World P → Option Bool
  unfolding frame_done
  done t w = if t.handle then frame_done w.frame else some true

  unfoldable pub resume : CoroTask → World P → Option (World P)
  unfolding frame_done resume_handle
  resume t w =
      if t.handle
      then elim (frame_done w.frame) [
        | none ↦ none
        | some true ↦ some w
        | some false ↦ resume_handle w w.frame
      ]
      else some w

  -- `handle_.promise().get_result()`, which moves the value out of the frame
  unfoldable pub finished_result : CoroTask → Option (Frame P) → Option (Outcome × Frame P)
  finished_result t none = none
  finished_result t (some f) =
      if t.handle
      then elim (ty.get_result f.promise) [
        | none ↦ none
        | some (o, p) ↦ some (o, record f { promise = p })
      ]
      else none

  -- `handle_.promise().set_external_promise`
  unfoldable pub attach : Option (Frame P) → ℕ → Option (Frame P)
  attach none id = none
  attach (some f) id = some (record f { promise = ty.set_external_promise f.promise id })

  -- What `get` does before it blocks: the result at once, or the number of the promise to wait for.
  unfoldable pub get_begin : CoroTask → World P → ℕ → Option (Option Outcome × World P)
  unfolding done resume finished_result attach
  get_begin t w id = elim (done t w) [
    | none ↦ none
    | some true ↦ elim (finished_result t w.frame) [
      | none ↦ none
      | some (o, f) ↦ some (some o, record w { frame = some f })
    ]
    | some false ↦ elim (resume t (record w { frame = attach w.frame id })) [
      | none ↦ none
      | some w' ↦ some (none, w')
    ]
  ]
