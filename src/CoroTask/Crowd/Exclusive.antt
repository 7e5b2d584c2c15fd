-- ===== src/CoroTask/Crowd/Exclusive.antt =====
-- include/ate/coro_task.hpp: who resumes a coroutine.
use async_task_engine.Common.{
  ℕ, ◌+◌, ◌≤◌, ◌<◌, ◌≡◌, ◌≢◌, Option, some, none, update, update-other, count_below,
  count_below-update, ℕ_discrete, arith, true, ◌∙◌,
}
use async_task_engine.CoroPromise.{PromiseType}
use async_task_engine.AsyncResult.{Outcome}
use async_task_engine.CoroTask.Crowd.{
  Script, Stage, Caller, destroyed, broken, resuming, Crowd, Reach,
}
use async_task_engine.CoroTask.Crowd.Places.{is_allowed, times, is_at}
use async_task_engine.CoroTask.Crowd.Moves.{Reach-Sound}

pub at_least_one :
    (d n : ℕ) (f : ℕ → Option ℕ) (i : ℕ) → i < n → f i ≡ some d → 1 ≤ count_below (is_at d) n f
at_least_one d n f i lt e = ground (arith, count_below-update (is_at d) n f i none lt)

-- Two workers at one coroutine count twice.
at_least_two :
    (d n : ℕ) (f : ℕ → Option ℕ) (i j : ℕ)
    → i < n
    → j < n
    → (i ≡ j → ⊥)
    → f i ≡ some d
    → f j ≡ some d
    → 2 ≤ count_below (is_at d) n f
at_least_two d n f i j lti ltj apart e e' =
    let rest = at_least_one d n (update f i none) j ltj (update-other f i none j apart ∙ e') in
    ground (arith, rest, count_below-update (is_at d) n f i none lti)

pub allowed-fine :
    (k : Caller) (st : Stage) (p : Option Outcome) → is_allowed k st p ≡ true → st ≢ broken
allowed-fine k st p h e = ground arith

-- In every interleaving of the callers, the workers, the timers and a shutdown, no coroutine is resumed while it
-- runs, after its end or after its frame was destroyed, and no frame is destroyed twice or while it
-- runs. While a worker resumes a coroutine, no other worker and not the caller resumes it, and its
-- handle is neither in the queue nor in a timer; queue and timers hold a handle at most once
-- together, and none of a frame that was destroyed.
pub resumed_by_one :
    {P : Type 0} (ty : PromiseType P) {m l n : ℕ} {bodies : ℕ → Script} {s : Crowd}
    → Reach ty m l n bodies s
    → (c : ℕ)
    → (s.stage c ≢ broken)
      × (times c s.queue.tasks + s.timers c ≤ 1)
      × ((i : ℕ)
          → i < n
          → s.worker i ≡ some c
          → (s.caller c ≢ resuming)
            × (times c s.queue.tasks + s.timers c ≡ 0)
            × (s.stage c ≢ destroyed)
            × ((j : ℕ) → j < n → s.worker j ≡ some c → i ≡ j))
      × (s.stage c ≡ destroyed → times c s.queue.tasks + s.timers c ≡ 0)
resumed_by_one ty {m} {l} {n} {bodies} {s} r c =
    let v = Reach-Sound ty r c in
    (
      allowed-fine (s.caller c) (s.stage c) (s.promises c) v.allowed,
      ground (arith, v.parked, v.slept),
      λ i lt e.
          let one = at_least_one c n s.worker i lt e in
          (
            ground (arith, v.held, v.parked, v.slept),
            ground (arith, v.held, v.parked, v.slept),
            ground (arith, v.held, v.parked, v.slept),
            λ j ltj e'. elim (ℕ_discrete i j) [
              | yes same ↦ same
              | no apart ↦
                  let two = at_least_two c n s.worker i j lt ltj apart e e' in
                  absurd (ground (arith, v.held, v.parked, v.slept))
            ],
          ),
      λ over. ground (arith, v.parked, v.slept),
    )
