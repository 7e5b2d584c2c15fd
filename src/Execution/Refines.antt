-- ===== src/Execution/Refines.antt =====
-- include/ate/thread_pool.hpp and include/ate/async_result.hpp: the pool as the workers that the
-- futures stand on.
use async_task_engine.Common.{
  ℕ, suc, ◌<◌, ◌≡◌, refl, sym, ap, subst, ◌∙◌, ◌⊎◌, inl, inr, List, [], ◌∷◌, ◌++◌, some, length,
  length-append, get_elem?, update, arith, count_below,
}
use mathlib.Core.Option.{none-ne-some}
use async_task_engine.TaskQueue.{empty}
use async_task_engine.ThreadPool.{
  Pool, Turn, turn, log, works, init as new_pool, Step as PoolStep, start as pool_start,
  later as pool_later,
}
use async_task_engine.ThreadPool.Order.{Reach-order}
use async_task_engine.AsyncResult.{
  Outcome, Callable, plain, continued, call, submit as make_future, then,
}
use async_task_engine.AsyncResult.System.{
  starts, finishes, submits as future_submits, thens as future_thens, works as future_works,
  Reach as FutureReach, start as future_start, later as future_later,
}
use async_task_engine.Execution.{
  Execution, init, submit_async, continue_with, running_task, leave_task, Step, submits_async,
  thens, leaves, goes_on, Reach, start, later,
}
use async_task_engine.Execution.Links.{
  count_below-none, Linked, Linked-same, Linked-room, Linked-start, Linked-finish,
}
use async_task_engine.Execution.Quiet.{
  Stays, Starts, IsQuiet-cases, turn-leaves, running_task-update,
}
use async_task_engine.Execution.Submits.{system, get_elem?-after, Inv, submit-refines}

-- The first task of the queue is the one that is counted next.
next-counted :
    (n : ℕ) (x : Execution) (task : ℕ) (rest : List ℕ)
    → Inv n x
    → x.pool.queue.tasks ≡ task ∷ rest
    → (task ≡ length x.pool.started) × (length x.pool.started < length x.engine.tasks)
next-counted n x task rest v e =
    let all = Reach-order v.reach ∙ ap (λ l. x.pool.started ++ l) e in
    (
      sym (
          v.numbered.in_order (length x.pool.started) task (
            ap (λ l. get_elem? l (length x.pool.started)) all
            ∙ get_elem?-after x.pool.started task rest)),
      omega (arith, v.numbered.as_many, ap length all, length-append x.pool.started (task ∷ rest)),
    )

quiet-refines :
    (n : ℕ) (x : Execution) (p : Pool)
    → PoolStep n x.pool p
    → Stays x.pool p ⊎ Starts n x.pool p
    → Inv n x
    → FutureReach n (system x)
    → Inv n (record x { pool = p }) × FutureReach n (system (record x { pool = p }))
quiet-refines n x p st (inl (same, started, accepted)) v r = (
  record {
    reach = pool_later v.reach st;
    numbered = record {
      as_many = ap length accepted ∙ v.numbered.as_many;
      in_order = λ j k e. v.numbered.in_order j k (ap (λ l. get_elem? l j) (sym accepted) ∙ e);
    };
    links =
        subst (λ l. Linked n (λ i. running_task (p.worker i)) (length l) x.engine.results)
          (sym started) (Linked-same n _ _ _ _ same v.links);
  },
  subst (λ l. FutureReach n (record { engine = x.engine; started = length l })) (sym started) r,
)
quiet-refines n x p st (inr (i, task, lt, idle, moved, started, accepted, head)) v r =
    let (number, more) = next-counted n x task p.queue.tasks v head in
    let size : length p.started ≡ suc (length x.pool.started) =
      omega (arith, ap length started, length-append x.pool.started (task ∷ [])) in
    let linked = Linked-start n _ _ _ i lt idle v.links in
    (
      record {
        reach = pool_later v.reach st;
        numbered = record {
          as_many = ap length accepted ∙ v.numbered.as_many;
          in_order = λ j k e. v.numbered.in_order j k (ap (λ l. get_elem? l j) (sym accepted) ∙ e);
        };
        links =
            subst (λ m. Linked n (λ j. running_task (p.worker j)) m x.engine.results) (sym size)
              (Linked-same n _ _ _ _
                (λ j.
                  moved j
                  ∙ ap (λ k. update (λ j. running_task (x.pool.worker j)) i (some k) j) number)
                linked);
      },
      subst (λ m. FutureReach n (record { engine = x.engine; started = m })) (sym size)
          (future_later r (future_works (starts more (Linked-room n _ _ _ i lt idle v.links)))),
    )

leave-refines :
    (n : ℕ) (x : Execution) (i k : ℕ) (t : Turn) (c : Callable) (o : Outcome)
    → i < n
    → turn x.pool.queue (x.pool.stop i) (x.pool.worker i) ≡ some t
    → running_task (x.pool.worker i) ≡ some k
    → get_elem? x.engine.tasks k ≡ some c
    → call x.engine.results c ≡ some o
    → Inv n x
    → FutureReach n (system x)
    → Inv n (leave_task x i t k o) × FutureReach n (system (leave_task x i t k o))
unfolding leave_task
leave-refines n x i k t c o lt e inside at result v r =
    let (nothing, out) = turn-leaves x.pool.queue (x.pool.stop i) (x.pool.worker i) t k e inside in
    let (early, fresh) = v.links.doing i k inside in
    let started : log x.pool.started t.took ≡ x.pool.started = ap (log x.pool.started) nothing in
    let results = update x.engine.results k (some o) in
    (
      record {
        reach = pool_later v.reach (works i t lt e);
        numbered = record { as_many = v.numbered.as_many; in_order = v.numbered.in_order };
        links =
            subst
              (λ l.
                Linked n (λ j. running_task (update x.pool.worker i t.next j)) (length l) results)
              (sym started)
              (Linked-same n _ _ _ _
                (λ j.
                  running_task-update x.pool.worker i t.next j
                  ∙ ap (λ p. update (λ j. running_task (x.pool.worker j)) i p j) out)
                (Linked-finish n _ _ _ i k o lt inside v.links));
      },
      subst
          (λ l.
            FutureReach n
              (record { engine = record x.engine { results = results }; started = length l }))
          (sym started) (future_later r (future_works (finishes k c o early fresh at result))),
    )

Step-refines :
    (n : ℕ) (x y : Execution)
    → Step n x y
    → Inv n x
    → FutureReach n (system x)
    → Inv n y × FutureReach n (system y)
unfolding submit_async continue_with make_future then
Step-refines n x y (submits_async o) v r = submit-refines n x (plain o) (future_submits o) v r
Step-refines n x y (thens k cont lt) v r =
    submit-refines n x (continued (some k) cont) (future_thens k cont lt) v r
Step-refines n x y (leaves i k t c o lt e inside at result) v r =
    leave-refines n x i k t c o lt e inside at result v r
Step-refines n x y (goes_on {p} st quiet) v r = quiet-refines n x p st (IsQuiet-cases st quiet) v r

pub Reach-both : {n : ℕ} {x : Execution} → Reach n x → Inv n x × FutureReach n (system x)
unfolding init new_pool empty count_below
Reach-both start = (
  record {
    reach = pool_start;
    numbered = record { as_many = refl; in_order = λ j k e. elim (none-ne-some k e) [ ] };
    links = record {
      doing = λ i k e. elim (none-ne-some k e) [ ];
      apart = λ i j k e f. elim (none-ne-some k e) [ ];
      balance = count_below-none _;
      fresh = λ k le. refl;
      held = λ k lt e. ground arith;
    };
  },
  future_start,
)
Reach-both (later {x} {y} r st) = let (v, f) = Reach-both r in Step-refines _ x y st v f

-- The thread pool does what the futures stand on: in every interleaving of submitters, workers and
-- `shutdown`, the tasks, their futures and the number of tasks that were started are a state that
-- `n` workers reach that take the tasks in the order of submission and stay inside a task until its
-- body has ended. (`submit` after `shutdown` throws and changes none of them.)
pub pool-refines : {n : ℕ} (x : Execution) → Reach n x → FutureReach n (system x)
pool-refines x r = (Reach-both r).1
