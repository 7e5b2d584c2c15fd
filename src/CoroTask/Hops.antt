-- ===== src/CoroTask/Hops.antt =====
-- include/ate/coro_task.hpp: what `get` returns, and when the frame is left alone.
use async_task_engine.Common.{
  ℕ, zero, suc, ◌<◌, ◌≡◌, refl, ap, ◌∙◌, true, Option, none, some, update, update-at, arith,
}
use async_task_engine.AsyncResult.{Outcome}
use async_task_engine.CoroPromise.{PromiseType}
use async_task_engine.CoroTask.{
  Body, schedule, ends, Frame, World, get_return_object, run_body, resume, attach, frame_done,
  finished_result, resume_handle, pool_turn, done, get_begin,
}

-- How often the body goes to the pool, and how it ends.
abbrev pub hops : Body → ℕ
hops (schedule next) = suc (hops next)
hops (ends o) = 0

abbrev pub outcome : Body → Outcome
outcome (schedule next) = outcome next
outcome (ends o) = o

-- Turns of the pool in a row.
unfoldable pub pool_turns : {P : Type 0} → PromiseType P → ℕ → World P → Option (World P)
unfolding pool_turn
pool_turns ty zero w = some w
pool_turns ty (suc n) w = elim (pool_turn ty w w.pool) [
  | none ↦ none
  | some w' ↦ pool_turns ty n w'
]

module _ {P : Type 0} (ty : PromiseType P) (id : ℕ) (promises : ℕ → Option Outcome) where
  abbrev waiting : P
  waiting = ty.set_external_promise ty.created id

  -- The coroutine is suspended before what is left of it, or has come to its end.
  abbrev suspended : Body → World P
  suspended (schedule next) = record {
    frame = some (record { promise = waiting; rest = some next });
    pool = 1;
    promises = promises;
  }
  suspended (ends o) = record {
    frame = some (record { promise = ty.finished id o; rest = none });
    pool = 0;
    promises = update promises id (some (ty.kept o));
  }

  run_body-suspended :
      (b : Body) (f : Option (Frame P))
      → run_body ty waiting b (record { frame = f; pool = 0; promises = promises })
        ≡ some (suspended b)
  unfolding run_body
  run_body-suspended (schedule next) f = refl
  run_body-suspended (ends o) f = rw (ty.final_await-complete id o promises, run_body) refl

  pool_turns-schedule :
      (k : ℕ) (next : Body)
      → pool_turns ty (suc k) (suspended (schedule next)) ≡ pool_turns ty k (suspended next)
  unfolding pool_turns pool_turn resume_handle
  pool_turns-schedule k next =
      ap (λ o. elim o as (λ x. Option (World P)) [ none ↦ none | some w' ↦ pool_turns ty k w' ])
        (run_body-suspended next (some (record { promise = waiting; rest = some next })))

  pool_turns-ends : (o : Outcome) → pool_turns ty 0 (suspended (ends o)) ≡ some (suspended (ends o))
  unfolding pool_turns
  pool_turns-ends o = refl

  pool_turns-hops :
      (b : Body) → pool_turns ty (hops b) (suspended b) ≡ some (suspended (ends (outcome b)))
  pool_turns-hops (schedule next) = pool_turns-schedule (hops next) next ∙ pool_turns-hops next
  pool_turns-hops (ends o) = pool_turns-ends o

  pool_turns-before :
      (b : Body) (k : ℕ)
      → k < hops b
      → (w : World P) × (pool_turns ty k (suspended b) ≡ some w)
        × (w.pool ≡ 1)
        × (w.promises ≡ promises)
  unfolding pool_turns
  pool_turns-before (ends o) k lt = elim lt [ ]
  pool_turns-before (schedule next) zero lt = (suspended (schedule next), refl, refl, refl)
  pool_turns-before (schedule next) (suc k) lt =
      let (w, e, one, same) = pool_turns-before next k (omega (arith, lt)) in
      (w, pool_turns-schedule k next ∙ e, one, same)

  get_begin-created :
      (b : Body)
      → (let (t, w) = get_return_object ty b promises in
          get_begin ty t w id ≡ some (none, suspended b))
  unfolding get_begin get_return_object done resume attach frame_done resume_handle
  get_begin-created b =
      ap
        (λ o. elim o as (λ x. Option (Option Outcome × World P)) [
          | none ↦ none
          | some w' ↦ some (none, w')
        ])
        (run_body-suspended b (attach ty (get_return_object ty b promises).1.frame id))

  get_begin-finished :
      (o : Outcome) (j : ℕ)
      → (w : World P) × (get_begin ty (record { handle = true }) (suspended (ends o)) j
          ≡ some (some (ty.left o), w))
  unfolding get_begin done frame_done finished_result
  get_begin-finished o j =
      let (p, e) = ty.get_result-finished id o in
      (
        record (suspended (ends o)) { frame = some (record { promise = p; rest = none }) },
        rw (e, get_begin) refl,
      )

  update-here : (o : Outcome) → update promises id (some o) id ≡ some o
  update-here o = update-at promises id (some o) id refl

  done-finished :
      (o : Outcome) → done ty (record { handle = true }) (suspended (ends o)) ≡ some true
  unfolding done
  done-finished o = refl

-- `get` on a coroutine that was just called starts it and blocks. While the coroutine has hops to
-- the pool to make, one task of the pool holds its handle and nothing is returned; after as many
-- turns of the pool as the body has hops, the promise holds the outcome of the body, the coroutine
-- is done, no task of the pool holds its handle, so that its frame may be destroyed. Another
-- `get` returns at once, but only what the move of the outcome to the promise has left (`left`: the
-- same exception, and for a value what its type leaves of one that was moved from). Nothing undefined
-- happens on the way. This holds for tasks with a value and for `void` ones, and for any promise type
-- with the laws of `PromiseType`.
pub get-hops :
    {P : Type 0} (ty : PromiseType P) (b : Body) (promises : ℕ → Option Outcome) (id again : ℕ)
    → (let (t, w) = get_return_object ty b promises in
        (w₁ : World P) × (get_begin ty t w id ≡ some (none, w₁))
        × ((k : ℕ)
            → k < hops b
            → (w' : World P) × (pool_turns ty k w₁ ≡ some w')
              × (w'.pool ≡ 1)
              × (w'.promises ≡ promises))
        × (w₂ : World P) × (pool_turns ty (hops b) w₁ ≡ some w₂)
        × (w₂.promises id ≡ some (ty.kept (outcome b)))
        × (w₂.pool ≡ 0)
        × (done ty t w₂ ≡ some true)
        × (w₃ : World P) × (get_begin ty t w₂ again ≡ some (some (ty.left (outcome b)), w₃)))
unfolding get_return_object
get-hops ty b promises id again =
    let (w, e) = get_begin-finished ty id promises (outcome b) again in
    (
      suspended ty id promises b,
      get_begin-created ty id promises b,
      pool_turns-before ty id promises b,
      suspended ty id promises (ends (outcome b)),
      pool_turns-hops ty id promises b,
      update-here ty id promises (ty.kept (outcome b)),
      refl,
      done-finished ty id promises (outcome b),
      w,
      e,
    )
