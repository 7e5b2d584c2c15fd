-- ===== src/ThreadPool/Drain.antt =====
-- src/thread_pool.cpp: `shutdown` and the drain loop, with the others at rest or moving.
use async_task_engine.Common.{
  ℕ, zero, suc, ◌<◌, ◌≤◌, ◌+◌, ◌*◌, ◌≡◌, ◌≢◌, refl, inl, inr, true, false, [], append-nil, none,
  some, update, arith, length, Option-cases,
}
use async_task_engine.TaskQueue.{TaskQueue, empty, push, try_pop, wait_and_pop}
use async_task_engine.ThreadPool.{
  Worker, testing, waiting, asleep, running, draining, exited, stopping, Pool, submit, Turn, turn,
  commit, works, Reach, later,
}
use async_task_engine.ThreadPool.Order.{Reach-order}
use async_task_engine.ThreadPool.Closing.{Reach-IsClosing}

-- A worker that has left leaves nothing behind: all that was accepted has been started, and nothing
-- more is accepted.
pub exited-drained :
    {n : ℕ} {s : Pool}
    → Reach n s
    → (i task : ℕ) → s.worker i ≡ exited
    → (s.queue.tasks ≡ []) × (s.started ≡ s.accepted) × (submit s task ≡ (false, s))
unfolding submit push
exited-drained {s = s} r i task e =
    let v = Reach-IsClosing r in
    ground (arith, v.drained i, v.leaving i, v.stopped i, Reach-order r, append-nil s.started)

-- When `shutdown` has gone through its loop, stop is requested of every worker and none sleeps.
pub rests-stopped :
    {n : ℕ} {s : Pool}
    → Reach n s
    → s.closer ≡ stopping n
    → (i : ℕ) → i < n
    → (s.stop i ≡ true) × (s.worker i ≢ asleep)
rests-stopped r e i lt =
    let v = Reach-IsClosing r in let on = v.served i _ e lt in (on, v.alert i on)

-- Worker `i` takes up to `fuel` turns while the others stand still.
pub work_alone : ℕ → ℕ → Pool → Pool
work_alone zero i s = s
work_alone (suc fuel) i s = elim (turn s.queue (s.stop i) (s.worker i)) [
  | none ↦ s
  | some t ↦ work_alone fuel i (commit s i t)
]

abbrev pub rank : Worker → ℕ
rank exited = 0
rank draining = 1
rank (running _) = 3
rank waiting = 3
rank _ = 2

abbrev pub measure : TaskQueue ℕ → Worker → ℕ
measure q w = rank w + 2 * length q.tasks

-- Under stop each turn brings a worker nearer to the exit, and never to sleep.
pub turn-nearer :
    (q : TaskQueue ℕ) (w : Worker) (t : Turn)
    → turn q true w ≡ some t
    → (t.next ≢ asleep) × (measure t.queue t.next < measure q w)
unfolding turn try_pop wait_and_pop
turn-nearer q testing t e = ground arith
turn-nearer q w t e = ground arith

pub turn_stuck : (q : TaskQueue ℕ) (w : Worker) → w ≢ asleep → turn q true w ≡ none → w ≡ exited
unfolding turn
turn_stuck q asleep h e = absurd (h refl)
turn_stuck q exited h e = refl
turn_stuck q w h e = cc

measure-zero : (q : TaskQueue ℕ) (w : Worker) → measure q w ≤ 0 → w ≡ exited
measure-zero q testing h = absurd (omega arith)
measure-zero q exited h = refl
measure-zero q w h = absurd (omega arith)

pub rank-le : (w : Worker) → rank w ≤ 3
rank-le testing = omega arith
rank-le w = omega arith

module _ {n : ℕ} (i : ℕ) (lt : i < n) where
  work_alone_lem :
      (fuel : ℕ) {s : Pool}
      → Reach n s
      → s.stop i ≡ true
      → measure s.queue (s.worker i) ≤ fuel
      → Reach n (work_alone fuel i s) × ((work_alone fuel i s).worker i ≡ exited)
  unfolding work_alone
  work_alone_lem zero {s} r on m = (r, measure-zero s.queue (s.worker i) m)
  work_alone_lem (suc fuel) {s} r on m =
      elim (Option-cases (turn s.queue (s.stop i) (s.worker i))) [
        | inl e ↦ rw (e, work_alone) (r, turn_stuck s.queue (s.worker i) (alert i on) (rw on at e))
        | inr (t, e) ↦
            rw (e, work_alone) (work_alone_lem fuel (later r (works i t lt e)) on (nearer t e))
      ]
    where
      open (Reach-IsClosing r) use {alert}

      nearer :
          (t : Turn)
          → turn s.queue (s.stop i) (s.worker i) ≡ some t
          → measure t.queue (update s.worker i t.next i) ≤ fuel
      nearer t e = ground (arith, turn-nearer s.queue (s.worker i) t (rw on at e))

-- Once stop is requested of worker `i`, its own turns alone, at most three and two for each
-- queued task, take it out of `worker_loop`; then every accepted task has been started.
pub shutdown-exits :
    {n : ℕ} {s : Pool}
    → Reach n s
    → (i : ℕ) → i < n
    → s.stop i ≡ true
    → let t = work_alone (3 + 2 * length s.queue.tasks) i s in
      Reach n t × (t.worker i ≡ exited) × (t.queue.tasks ≡ []) × (t.started ≡ t.accepted)
shutdown-exits {s = s} r i lt on =
    let (r', out) =
      work_alone_lem i lt (3 + 2 * length s.queue.tasks) r on
        (omega (arith, rank-le (s.worker i))) in
    let (empty, all, _) = exited-drained r' i 0 out in (r', out, empty, all)
