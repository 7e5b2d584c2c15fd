-- ===== src/CoroTask/Crowd/Settled.antt =====
-- include/ate/coro_task.hpp: a thread that can go on, until every `get` has returned.
use async_task_engine.Common.{
  ℕ, zero, suc, ◌+◌, ◌<◌, ◌≤◌, ◌≡◌, ◌≢◌, ◌⊎◌, inl, inr, refl, true, false, Option, some, arith,
  subst, ◌∷◌, List, count_below, Option-cases, List-cases, Bool-cases, ℕ_discrete,
}
use async_task_engine.AsyncResult.{Outcome}
use async_task_engine.TaskQueue.{TaskQueue, try_pop, shutdown, pop_front}
use async_task_engine.CoroPromise.{PromiseType}
use async_task_engine.CoroTask.Crowd.{
  Script, sleeping, fires, Stage, unstarted, queued, running, finished, broken, Caller, before,
  resuming, waiting, got, gone, destroyed, Crowd, init, Step, gets, suspends, takes, works,
  receives, shuts, is_shuts, Reach, start, later,
}
use async_task_engine.CoroTask.Crowd.Places.{is_queued, is_active, is_sleeping, is_at, Sound}
use async_task_engine.CoroTask.Crowd.Moves.{Reach-Sound}
use async_task_engine.CoroTask.Crowd.Exclusive.{at_least_one, allowed-fine}
use async_task_engine.CoroTask.Crowd.Progress.{work_left, Reach-Untouched, Step-cheaper}

-- `get` has returned or thrown, or the task was destroyed.
abbrev pub IsReturned : Crowd → ℕ → Type 0
IsReturned s c = ((o : Outcome) × (s.caller c ≡ got o)) ⊎ (s.caller c ≡ gone)

find_worker :
    (d n : ℕ) (f : ℕ → Option ℕ)
    → 1 ≤ count_below (is_at d) n f
    → (i : ℕ) × (i < n) × (f i ≡ some d)
unfolding count_below
find_worker d zero f h = elim h [ ]
find_worker d (suc n) f h = elim (Bool-cases (is_at d (f n))) [
  | inl here ↦ (n, omega arith, ground arith)
  | inr elsewhere ↦ let (i, lt, e) = find_worker d n f (ground arith) in (i, omega (arith, lt), e)
]

Stage-running :
    (st : Stage)
    → st ≢ broken
    → is_active st ≡ true
    → is_queued st ≡ false
    → is_sleeping st ≡ false
    → (b : Script) × (st ≡ running b)
Stage-running (running b) f a q z = (b, refl)
Stage-running (unstarted b) f a q z = cc
Stage-running (queued b) f a q z = cc
Stage-running (sleeping b) f a q z = cc
Stage-running finished f a q z = cc
Stage-running destroyed f a q z = cc
Stage-running broken f a q z = cc

try_pop-cons :
    (q : TaskQueue ℕ) (c : ℕ) (cs : List ℕ)
    → q.tasks ≡ c ∷ cs
    → (try_pop q) ≡ (some c, record q { tasks = cs })
unfolding try_pop pop_front
try_pop-cons q c cs e = ground arith

module _ {P : Type 0} (ty : PromiseType P) (m l n : ℕ) (s : Crowd) where
  -- Some thread can take a step.
  abbrev pub Moves : Type 0
  Moves = (t : Crowd) × ((st : Step ty m l n s t) × (is_shuts ty st ≡ false))

  module _ (w : (d : ℕ) → Sound n s d) where
    worker-moves : (i c : ℕ) → i < n → s.worker i ≡ some c → Moves
    worker-moves i c lt e =
        let one = at_least_one c n s.worker i lt e in
        let (b, at) =
          Stage-running (s.stage c)
            (allowed-fine (s.caller c) (s.stage c) (s.promises c) (w c).allowed)
            (ground (arith, (w c).held)) (ground (arith, (w c).held, (w c).parked))
            (ground (arith, (w c).held, (w c).slept)) in
        (_, (works i c b lt e at, refl))

    queue-moves : (c : ℕ) (cs : List ℕ) → l < n → s.queue.tasks ≡ c ∷ cs → Moves
    queue-moves c cs lt e = elim (Option-cases (s.worker l)) [
      | inl idle ↦ (_, (takes l c _ (omega arith) lt idle (try_pop-cons s.queue c cs e), refl))
      | inr (d, busy) ↦ worker-moves l d lt busy
    ]

    timer-moves : (c k : ℕ) → 0 < l → l < n → s.timers c ≡ suc k → Moves
    timer-moves c k some_io lt e = elim (Option-cases (s.worker 0)) [
      | inl idle ↦ (_, (fires 0 c k some_io (omega (arith, some_io, lt)) idle e, refl))
      | inr (d, busy) ↦ worker-moves 0 d (omega (arith, some_io, lt)) busy
    ]

    -- A caller whose coroutine is suspended in the pool, running or over.
    waiting-moves :
        (c : ℕ) → 0 < l → l < n → s.caller c ≡ waiting → (st : Stage) → s.stage c ≡ st → Moves
    waiting-moves c io lt e (unstarted b) at = absurd (ground (arith, (w c).allowed))
    waiting-moves c io lt e (queued b) at = elim (List-cases s.queue.tasks) [
      | inl none_left ↦ absurd (ground (arith, (w c).parked))
      | inr (d, ds, some_left) ↦ queue-moves d ds lt some_left
    ]
    waiting-moves c io lt e (sleeping b) at = timer-moves c 0 io lt (ground (arith, (w c).slept))
    waiting-moves c io lt e (running b) at =
        let (i, lti, busy) =
          find_worker c n s.worker (ground (arith, (w c).held, (w c).parked, (w c).slept)) in
        worker-moves i c lti busy
    waiting-moves c io lt e finished at = elim (Option-cases (s.promises c)) [
      | inl unfilled ↦ absurd (ground (arith, (w c).allowed))
      | inr (o, filled) ↦ (_, (receives c o e filled, refl))
    ]
    waiting-moves c io lt e destroyed at = absurd (ground (arith, (w c).allowed))
    waiting-moves c io lt e broken at = absurd (ground (arith, (w c).allowed))

    caller-moves :
        (c : ℕ) → c < m → 0 < l → l < n → (k : Caller) → s.caller c ≡ k → Moves ⊎ IsReturned s c
    caller-moves c ltc io lt before e = inl (_, (gets c ltc e, refl))
    caller-moves c ltc io lt resuming e =
        let (b, at) =
          Stage-running (s.stage c)
            (allowed-fine (s.caller c) (s.stage c) (s.promises c) (w c).allowed)
            (ground (arith, (w c).held)) (ground (arith, (w c).held, (w c).parked))
            (ground (arith, (w c).held, (w c).slept)) in
        inl (_, (suspends c b e at, refl))
    caller-moves c ltc io lt waiting e = inl (waiting-moves c io lt e (s.stage c) refl)
    caller-moves c ltc io lt (got o) e = inr (inl (o, e))
    caller-moves c ltc io lt gone e = inr (inr e)

    all-moves : (k : ℕ) → k ≤ m → 0 < l → l < n → Moves ⊎ ((c : ℕ) → c < k → IsReturned s c)
    all-moves zero le io lt = inr (λ c h. absurd (omega (arith, h)))
    all-moves (suc k) le io lt = elim (caller-moves k (omega (arith, le)) io lt (s.caller k) refl) [
      | inl go ↦ inl go
      | inr home ↦ elim (all-moves k (omega (arith, le)) io lt) [
        | inl go ↦ inl go
        | inr homes ↦ inr (λ c h. elim (ℕ_discrete k c) [
          | yes here ↦ subst (λ x. IsReturned s x) here home
          | no other ↦ homes c (omega (arith, h, other))
        ])
      ]
    ]

-- `k` steps of the callers and the workers from the start, with shutdowns of the pool in between.
pub data Run {P : Type 0} (ty : PromiseType P) (m l n : ℕ) (bodies : ℕ → Script)
    : ℕ → Crowd → Type 0 where
  begins : Run ty m l n bodies 0 (init bodies)
  goes :
      {k : ℕ} {s t : Crowd}
      → Run ty m l n bodies k s
      → (st : Step ty m l n s t) → is_shuts ty st ≡ false
      → Run ty m l n bodies (suc k) t
  stops :
      {k : ℕ} {s : Crowd}
      → Run ty m l n bodies k s
      → Run ty m l n bodies k (record s { queue = shutdown s.queue })

module _ {P : Type 0} (ty : PromiseType P) {m l n : ℕ} {bodies : ℕ → Script} where
  pub Run-Reach : {k : ℕ} {s : Crowd} → Run ty m l n bodies k s → Reach ty m l n bodies s
  Run-Reach begins = start
  Run-Reach (goes r st go) = later (Run-Reach r) st
  Run-Reach (stops r) = later (Run-Reach r) shuts

  Run-work_left :
      {k : ℕ} {s : Crowd} → Run ty m l n bodies k s → k + work_left m s ≤ work_left m (init bodies)
  Run-work_left begins = omega arith
  Run-work_left (goes r st go) =
      let before = Run-work_left r in
      let past = Run-Reach r in
      omega (arith, before, Step-cheaper ty (Reach-Sound ty past) (Reach-Untouched ty past) st go)
  Run-work_left (stops r) = Run-work_left r

  -- With at least one worker inside `io_context::run` and one that is not, and with shutdowns of the
  -- pool at any time, every run of `m` callers comes to an end, whatever the order of the steps: it has at most as many steps as the bodies have work, and
  -- some thread can take a further step unless each caller has the outcome of its `get` or has
  -- destroyed its task.
  pub every_get_returns :
      {k : ℕ} {s : Crowd}
      → Run ty m l n bodies k s
      → 0 < l
      → l < n
      → (k + work_left m s ≤ work_left m (init bodies))
        × (Moves ty m l n s ⊎ ((c : ℕ) → c < m → IsReturned s c))
  every_get_returns {s = s} r io lt =
      let past = Run-Reach r in
      (Run-work_left r, all-moves ty m l n s (Reach-Sound ty past) m (omega arith) io lt)
