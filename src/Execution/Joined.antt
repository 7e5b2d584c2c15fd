-- ===== src/Execution/Joined.antt =====
-- src/thread_pool.cpp: the futures once the workers have been joined.
use async_task_engine.Common.{
  ℕ, ◌<◌, ◌≡◌, List, none, some, get_elem?, sym, ap, ◌∙◌, length, arith, count_below-beyond,
}
use async_task_engine.ThreadPool.{exited}
use async_task_engine.ThreadPool.Drain.{exited-drained}
use async_task_engine.AsyncResult.{Outcome, plain}
use async_task_engine.AsyncResult.Chains.{
  Chained, compose, Chained-outcome, Chained-lt, body-outcome,
}
use async_task_engine.AsyncResult.Progress.{Filled}
use async_task_engine.Execution.{Execution, running_task, Reach}
use async_task_engine.Execution.Links.{inside, count_below-none, count_below-open}
use async_task_engine.Execution.Refines.{Reach-both}

-- When every worker has left, no future is open.
joined-Filled :
    {n : ℕ} (x : Execution) (k : ℕ)
    → Reach n x
    → 0 < n
    → ((i : ℕ) → i < n → x.pool.worker i ≡ exited)
    → k < length x.engine.tasks
    → Filled x.engine.results k
joined-Filled {n} x k r some_worker gone lt =
    let v = (Reach-both r).0 in
    let all = (exited-drained v.reach 0 0 (gone 0 some_worker)).1 in
    let none_open =
      sym v.links.balance
      ∙ count_below-beyond inside (λ i. running_task (x.pool.worker i)) (λ i. none) n
          (λ i small. ap running_task (gone i small))
      ∙ count_below-none n in
    count_below-open (length x.pool.started) x.engine.results k none_open
      (omega (arith, lt, ap length all, v.numbered.as_many))

-- When every one of the `n` workers has left `worker_loop`, and there is one, the future of a task
-- that `submit` took holds the value or the exception of its body, and the last of a chain of `then`
-- on it what the continuations make of that, one after the other, up to the first exception. So
-- none of these futures waits for ever, and `shutdown` loses no task and no continuation.
pub joined-outcome :
    {n : ℕ} (x : Execution) (k l : ℕ) (fs : List (ℕ → Outcome)) (body : Outcome)
    → Reach n x
    → 0 < n
    → ((i : ℕ) → i < n → x.pool.worker i ≡ exited)
    → get_elem? x.engine.tasks k ≡ some (plain body)
    → Chained x.engine.tasks k fs l
    → (x.engine.results k ≡ some body) × (x.engine.results l ≡ some (compose body fs))
joined-outcome x k l fs body r some_worker gone at chain =
    let (early, late) = Chained-lt x.engine.tasks k l fs (plain body) at chain in
    let (o, e) = joined-Filled x k r some_worker gone early in
    let (p, e') = joined-Filled x l r some_worker gone late in
    let f = (Reach-both r).1 in
    let same = body-outcome k body o f at e in
    (
      e ∙ ap some (sym same),
      e' ∙ ap some (Chained-outcome k l fs o p f chain e e' ∙ ap (λ q. compose q fs) (sym same)),
    )
