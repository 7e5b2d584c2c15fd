-- ===== src/Execution/Shutdown.antt =====
-- src/thread_pool.cpp: the workers after `shutdown`, some of which wait inside continuations.
use async_task_engine.Common.{
  ℕ, zero, suc, ◌+◌, ◌*◌, ◌<◌, ◌≤◌, ◌≡◌, ◌≢◌, refl, sym, ap, subst, ◌∙◌, ◌⊎◌, inl, inr, Bool, true,
  false, none, some, length, arith, ℕ_discrete, sum_below, sum_below-update, Option-cases,
  Bool-cases,
}
use mathlib.Core.Option.{none-ne-some}
use async_task_engine.ThreadPool.{
  Worker, testing, running, running_last, exited, Turn, turn, commit, works,
}
use async_task_engine.ThreadPool.Closing.{Reach-IsClosing}
use async_task_engine.ThreadPool.Drain.{rank, rank-le, turn-nearer, turn_stuck}
use async_task_engine.AsyncResult.Means.{Reach-Inv}
use async_task_engine.AsyncResult.Progress.{
  Filled, FirstOpen, first_open, call-Filled, get_elem?-some,
}
use async_task_engine.Execution.{
  Execution, running_task, leave_task, leaves, goes_on, Step, Reach, later,
}
use async_task_engine.Execution.Refines.{Reach-both}

-- What is left to do for the workers that were asked to stop.
abbrev pub work_left : ℕ → Execution → ℕ
work_left n x = sum_below rank n x.pool.worker + 2 * length x.pool.queue.tasks

-- Steps of the workers, each of which takes a turn.
pub data Turns (n : ℕ) : Execution → ℕ → Execution → Type 0 where
  none_yet : (x : Execution) → Turns n x 0 x
  further :
      {x y z : Execution} {j : ℕ} (i : ℕ) (t : Turn)
      → i < n
      → turn x.pool.queue (x.pool.stop i) (x.pool.worker i) ≡ some t
      → y.pool ≡ commit x.pool i t
      → Step n x y
      → Turns n y j z
      → Turns n x (suc j) z

abbrev pub IsExited : ℕ → Execution → Type 0
IsExited n x = (i : ℕ) → i < n → x.pool.worker i ≡ exited

-- A worker that is neither inside a task nor past the loop.
abbrev movable : Worker → Bool
movable (running k) = false
movable (running_last k) = false
movable exited = false
movable w = true

movable-running_task : (w : Worker) → movable w ≡ true → (running_task w ≡ none) × (w ≢ exited)
movable-running_task testing e = (refl, λ h. cc)
movable-running_task w e = ground arith

settled : (w : Worker) → movable w ≡ false → running_task w ≡ none → w ≡ exited
settled testing e h = ground arith
settled w e h = ground arith

-- The first worker that can move, if there is one.
find_movable :
    (n : ℕ) (f : ℕ → Worker)
    → ((i : ℕ) × (i < n) × (movable (f i) ≡ true)) ⊎ ((i : ℕ) → i < n → movable (f i) ≡ false)
find_movable zero f = inr (λ i lt. ground arith)
find_movable (suc n) f = elim (find_movable n f) [
  | inl (i, lt, e) ↦ inl (i, omega (arith, lt), e)
  | inr rest ↦ elim (Bool-cases (movable (f n))) [
    | inl e ↦ inl (n, omega arith, e)
    | inr e ↦ inr (λ i lt. elim (ℕ_discrete i n) [
      | yes here ↦ ap (λ j. movable (f j)) here ∙ e
      | no other ↦ rest i (omega (arith, lt, other))
    ])
  ]
]

-- A step of one worker.
abbrev Moves : ℕ → Execution → Type 0
Moves n x =
    (i : ℕ) × (t : Turn) × (z : Execution) × (i < n)
    × (turn x.pool.queue (x.pool.stop i) (x.pool.worker i) ≡ some t)
    × (z.pool ≡ commit x.pool i t)
    × Step n x z

module _ (n : ℕ) (x : Execution) (r : Reach n x)
    (stopped : (i : ℕ) → i < n → x.pool.stop i ≡ true) where
  has_turn :
      (i : ℕ)
      → i < n
      → x.pool.worker i ≢ exited
      → (t : Turn) × (turn x.pool.queue (x.pool.stop i) (x.pool.worker i) ≡ some t)
  has_turn i lt ne =
      let closing = Reach-IsClosing (Reach-both r).0.reach in
      elim (Option-cases (turn x.pool.queue (x.pool.stop i) (x.pool.worker i))) [
        | inl e ↦
            elim (ne (
              turn_stuck x.pool.queue (x.pool.worker i) (closing.alert i (stopped i lt))
                (subst (λ b. turn x.pool.queue b (x.pool.worker i) ≡ none) (stopped i lt) e))) [ ]
        | inr found ↦ found
      ]

  -- The oldest task that has not ended can end: all before it have.
  oldest-Moves : (k : ℕ) → k < length x.pool.started → FirstOpen x.engine.results k → Moves n x
  unfolding leave_task
  oldest-Moves k early (open_k, before) =
      let (v, f) = Reach-both r in
      let w = Reach-Inv f in
      let (i, lt, inside) = v.links.held k early open_k in
      let (c, at) = get_elem?-some x.engine.tasks k (omega (arith, early, w.fits)) in
      let (o, result) = call-Filled x.engine.results k c (w.ordered k c at) before in
      let (t, e) = has_turn i lt (λ gone. none-ne-some k (sym (ap running_task gone) ∙ inside)) in
      (i, t, leave_task x i t k o, lt, e, refl, leaves i k t c o lt e inside at result)

  idle :
      (i : ℕ)
      → ((k : ℕ) → k < length x.pool.started → Filled x.engine.results k)
      → running_task (x.pool.worker i) ≡ none
  idle i filled = elim (Option-cases (running_task (x.pool.worker i))) [
    | inl e ↦ e
    | inr (k, e) ↦
        let (early, open_k) = (Reach-both r).0.links.doing i k e in
        let (o, f) = filled k early in elim (none-ne-some o (sym open_k ∙ f)) [ ]
  ]

  progress_under_stop : IsExited n x ⊎ Moves n x
  progress_under_stop = elim (find_movable n x.pool.worker) [
    | inl (i, lt, e) ↦
        let (idle, ne) = movable-running_task (x.pool.worker i) e in
        let (t, f) = has_turn i lt ne in
        inr
          (i, t, record x { pool = commit x.pool i t }, lt, f, refl, goes_on (works i t lt f) idle)
    | inr still ↦ elim (first_open (length x.pool.started) x.engine.results) [
      | inl (k, early, oldest) ↦ inr (oldest-Moves k early oldest)
      | inr (none_open, filled) ↦
          inl (λ i lt. settled (x.pool.worker i) (still i lt) (idle i filled))
    ]
  ]

  -- Each turn leaves less to do.
  Moves-less :
      (i : ℕ) (t : Turn) (z : Execution)
      → i < n
      → turn x.pool.queue (x.pool.stop i) (x.pool.worker i) ≡ some t
      → z.pool ≡ commit x.pool i t
      → work_left n z < work_left n x
  Moves-less i t z lt e same =
      let nearer =
        turn-nearer x.pool.queue (x.pool.worker i) t
          (subst (λ b. turn x.pool.queue b (x.pool.worker i) ≡ some t) (stopped i lt) e) in
      subst (λ p. sum_below rank n p.worker + 2 * length p.queue.tasks < work_left n x) (sym same)
        (omega (arith, nearer.1, sum_below-update rank n x.pool.worker i t.next lt))

sum_below-rank : (n : ℕ) (f : ℕ → Worker) → sum_below rank n f ≤ 3 * n
unfolding sum_below
sum_below-rank zero f = omega arith
sum_below-rank (suc n) f = omega (arith, rank-le (f n), sum_below-rank n f)

shutdown_lem :
    (fuel n : ℕ) (x : Execution)
    → Reach n x
    → ((i : ℕ) → i < n → x.pool.stop i ≡ true)
    → work_left n x ≤ fuel
    → (j : ℕ) × (y : Execution) × Turns n x j y × (j ≤ work_left n x) × Reach n y × IsExited n y
shutdown_lem zero n x r stopped fits = elim (progress_under_stop n x r stopped) [
  | inl gone ↦ (0, x, none_yet x, omega arith, r, gone)
  | inr (i, t, z, lt, e, same, st) ↦
      let bad : ⊥ = omega (arith, Moves-less n x r stopped i t z lt e same, fits) in elim bad [ ]
]
shutdown_lem (suc fuel) n x r stopped fits = elim (progress_under_stop n x r stopped) [
  | inl gone ↦ (0, x, none_yet x, omega arith, r, gone)
  | inr (i, t, z, lt, e, same, st) ↦
      let less = Moves-less n x r stopped i t z lt e same in
      let still : (k : ℕ) → k < n → z.pool.stop k ≡ true =
        λ k small. ap (λ p. p.stop k) same ∙ stopped k small in
      let (j, y, run, few, r', gone) =
        shutdown_lem fuel n z (later r st) still (omega (arith, less, fits)) in
      (suc j, y, further i t lt e same st run, omega (arith, few, less), r', gone)
]

-- Once stop is requested of all `n` workers, they have a run of turns, at most three for each worker
-- and two for each queued task, after which every one has left `worker_loop`, although workers may
-- wait inside continuations for the futures of other tasks: no chain of `then` keeps the destructor
-- of the pool from joining its workers.
pub shutdown-joins :
    {n : ℕ} (x : Execution)
    → Reach n x
    → ((i : ℕ) → i < n → x.pool.stop i ≡ true)
    → (j : ℕ) × (y : Execution) × Turns n x j y
      × (j ≤ 3 * n + 2 * length x.pool.queue.tasks)
      × Reach n y
      × IsExited n y
shutdown-joins {n} x r stopped =
    let (j, y, run, few, r', gone) = shutdown_lem (work_left n x) n x r stopped (omega arith) in
    (j, y, run, omega (arith, few, sum_below-rank n x.pool.worker), r', gone)
