-- ===== src/Execution/Submits.antt =====
-- include/ate/thread_pool.hpp: the numbers of the tasks, and `submit` against the futures.
use async_task_engine.Common.{
  ℕ, suc, ◌≡◌, refl, sym, subst, inl, inr, true, false, List, [], ◌∷◌, ◌++◌, some, length,
  length-append, get_elem?, arith, Bool-cases,
}
use async_task_engine.TaskQueue.{push}
use async_task_engine.ThreadPool.{
  submits, submit as submit_number, Reach as PoolReach, later as pool_later,
}
use async_task_engine.AsyncResult.{Callable, submit as make_future}
use async_task_engine.AsyncResult.Means.{get_elem?-snoc}
use async_task_engine.AsyncResult.System.{
  System, Step as FutureStep, Reach as FutureReach, later as future_later,
}
use async_task_engine.Execution.{Execution, submit, running_task}
use async_task_engine.Execution.Links.{Linked}

-- The futures with the number of tasks that were started, as System of AsyncResult has them.
abbrev pub system : Execution → System
system x = record { engine = x.engine; started = length x.pool.started }

pub get_elem?-after :
    {A : Type 0} (xs : List A) (y : A) (ys : List A) → get_elem? (xs ++ y ∷ ys) (length xs) ≡ some y
get_elem?-after [] y ys = refl
get_elem?-after (x ∷ xs) y ys = get_elem?-after xs y ys

-- Task numbers are given in the order of submission.
pub record Numbered (x : Execution) : Type 0 where
  pub as_many : length x.pool.accepted ≡ length x.engine.tasks
  pub in_order : (j k : ℕ) → get_elem? x.pool.accepted j ≡ some k → j ≡ k

pub record Inv (n : ℕ) (x : Execution) : Type 0 where
  pub reach : PoolReach n x.pool
  pub numbered : Numbered x
  pub links :
      Linked n (λ i. running_task (x.pool.worker i)) (length x.pool.started) x.engine.results

-- What `submit` makes of an open pool.
abbrev taken : Execution → Callable → Execution
taken x c = record {
  pool = record x.pool {
    queue = record x.pool.queue { tasks = x.pool.queue.tasks ++ length x.engine.tasks ∷ [] };
    notifiers = suc x.pool.notifiers;
    accepted = x.pool.accepted ++ length x.engine.tasks ∷ [];
  };
  engine = record x.engine { tasks = x.engine.tasks ++ c ∷ [] };
}

submit-open :
    (x : Execution) (c : Callable)
    → x.pool.queue.is_shutdown ≡ false
    → ((submit x c).1 ≡ taken x c)
      × ((submit_number x.pool (length x.engine.tasks)).1 ≡ (taken x c).pool)
unfolding submit submit_number push make_future
submit-open x c e = ground arith

submit-shut : (x : Execution) (c : Callable) → x.pool.queue.is_shutdown ≡ true → (submit x c).1 ≡ x
unfolding submit submit_number push make_future
submit-shut x c e = ground arith

taken-Inv :
    (n : ℕ) (x : Execution) (c : Callable)
    → x.pool.queue.is_shutdown ≡ false
    → Inv n x
    → Inv n (taken x c)
taken-Inv n x c e v = record {
  reach =
      subst (PoolReach n) (submit-open x c e).1
        (pool_later v.reach (submits (length x.engine.tasks)));
  numbered = record {
    as_many = omega (
      arith,
      v.numbered.as_many,
      length-append x.pool.accepted (length x.engine.tasks ∷ []),
      length-append x.engine.tasks (c ∷ []),
    );
    in_order = λ j k f. elim (get_elem?-snoc x.pool.accepted (length x.engine.tasks) j k f) [
      | inl old ↦ v.numbered.in_order j k old
      | inr (here, new) ↦ omega (arith, here, new, v.numbered.as_many)
    ];
  };
  links = v.links;
}

-- `submit` and the step of the futures that goes with it, if it does not throw.
pub submit-refines :
    (n : ℕ) (x : Execution) (c : Callable)
    → FutureStep n (system x) (system (taken x c))
    → Inv n x
    → FutureReach n (system x)
    → Inv n (submit x c).1 × FutureReach n (system (submit x c).1)
submit-refines n x c st v r = elim (Bool-cases x.pool.queue.is_shutdown) [
  | inl shut ↦ subst (λ y. Inv n y × FutureReach n (system y)) (sym (submit-shut x c shut)) (v, r)
  | inr on ↦
      subst (λ y. Inv n y × FutureReach n (system y)) (sym (submit-open x c on).0)
        (taken-Inv n x c on v, future_later r st)
]
