-- ===== src/ThreadPool/Wakeup.antt =====
-- include/ate/task_queue.hpp and src/thread_pool.cpp: `push` notifies one worker, after it has
-- released the mutex.
use async_task_engine.Common.{
  ℕ, ◌<◌, ◌≤◌, ◌+◌, ◌≡◌, ◌≢◌, ◌⊎◌, Bool, true, false, [], ◌∷◌, some, arith, length, length-append,
  weight, count_below, count_below-update,
}
use async_task_engine.TaskQueue.{TaskQueue, empty, push, try_pop, wait_and_pop, shutdown}
use async_task_engine.ThreadPool.{
  Worker, testing, waiting, asleep, Pool, init, wake_up, submit, Turn, turn, Step, submits,
  notifies, notifies_none, wakes, works, flags, notifies_all, stops, rests, Reach, start, later,
}
use async_task_engine.ThreadPool.Order.{turn-Taken}
use async_task_engine.ThreadPool.Closing.{IsClosing, Reach-IsClosing}

-- On its way to the queue.
abbrev pub is_attentive : Worker → Bool
is_attentive testing = true
is_attentive waiting = true
is_attentive _ = false

abbrev pub attentive : ℕ → (ℕ → Worker) → ℕ
attentive = count_below is_attentive

abbrev Serves : TaskQueue ℕ → Worker → Turn → Type 0
Serves q w t =
    (t.queue.tasks ≡ [])
    ⊎ ((t.next ≢ asleep)
        × (length t.queue.tasks + weight (is_attentive w)
            ≤ length q.tasks + weight (is_attentive t.next)))

-- A worker of an open pool that stops looking at the queue has left it empty, or has taken a task.
turn-Serves : (q : TaskQueue ℕ) (w : Worker) (t : Turn) → turn q false w ≡ some t → Serves q w t
unfolding turn try_pop wait_and_pop
turn-Serves q testing t e = ground arith
turn-Serves q w t e = ground arith

abbrev Covered : ℕ → Pool → Type 0
Covered n s = length s.queue.tasks ≤ s.notifiers + attentive n s.worker

module _ {n : ℕ} {s : Pool} (v : IsClosing s)
    (ih : (i : ℕ) → i < n → s.queue.is_shutdown ≡ false → s.worker i ≡ asleep → Covered n s) where
  Step-Covered :
      {t : Pool}
      → Step n s t
      → (j : ℕ) → j < n
      → t.queue.is_shutdown ≡ false
      → t.worker j ≡ asleep
      → Covered n t
  unfolding submit push shutdown wake_up
  Step-Covered (submits task) j lt o a =
      ground (arith, ih j, length-append s.queue.tasks (task ∷ []))
  Step-Covered (notifies k i e lti ai) j lt o a =
      ground (arith, ih j, ih i, count_below-update is_attentive n s.worker i waiting lti)
  Step-Covered (notifies_none k e nobody) j lt o a = absurd (nobody j lt a)
  Step-Covered (wakes i lti ai) j lt o a =
      ground (arith, ih j, ih i, count_below-update is_attentive n s.worker i waiting lti)
  Step-Covered (works i t lti e) j lt o a =
      let kept = turn-Taken s.queue (s.stop i) (s.worker i) t e in
      let off : s.stop i ≡ false = ground (arith, v.stopped i) in
      let serves = turn-Serves s.queue (s.worker i) t (rw off at e) in
      ground (arith, ih j, count_below-update is_attentive n s.worker i t.next lti)
  Step-Covered (flags e) j lt o a = cc
  Step-Covered (notifies_all e) j lt o a = ground arith
  Step-Covered (stops i e lti) j lt o a = ground (arith, v.begun)
  Step-Covered (rests e) j lt o a = ih j lt o a

-- While the pool is open and some worker sleeps, each queued task has a notification on its way or
-- a worker that is about to look: no task waits on a sleeping pool.
pub no_lost_wakeup :
    {n : ℕ} {s : Pool}
    → Reach n s
    → (i : ℕ) → i < n
    → s.queue.is_shutdown ≡ false
    → s.worker i ≡ asleep
    → length s.queue.tasks ≤ s.notifiers + attentive n s.worker
unfolding init empty
no_lost_wakeup start i lt o a = omega arith
no_lost_wakeup (later r st) i lt o a =
    Step-Covered (Reach-IsClosing r) (no_lost_wakeup r) st i lt o a
