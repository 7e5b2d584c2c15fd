-- ===== src/CoroTask/Crowd/Means.antt =====
-- include/ate/coro_task.hpp: what the coroutines leave in the promises of their callers.
use async_task_engine.Common.{
  ℕ, ◌≡◌, ◌⊎◌, ap, ◌∙◌, inl, inr, refl, sym, true, Option, some, none, update, arith, subst,
}
use async_task_engine.AsyncResult.{Outcome}
use async_task_engine.TaskQueue.{TaskQueue, shutdown}
use async_task_engine.CoroPromise.{PromiseType}
use async_task_engine.CoroTask.Crowd.{
  Script, schedule, sleep, sleeping, fires, Stage, unstarted, queued, running, Caller, resuming,
  waiting, got, Crowd, init, resumed, refused, segment, Step, gets, suspends, takes, works,
  receives, destroys, gone, destroy, shuts, Reach, start, later,
}
use async_task_engine.CoroTask.Crowd.Segments.{
  after_sleep, outcome, Ends, after_push, after_end, segment-cases,
}
use async_task_engine.CoroTask.Crowd.Places.{Sound}
use async_task_engine.CoroTask.Crowd.Moves.{Reach-Sound, try_pop-some}

-- How the coroutine is to end, from where it stands, and the given outcome if it is over.
abbrev pub left : Outcome → Stage → Outcome
left o (unstarted b) = outcome b
left o (queued b) = outcome b
left o (sleeping b) = outcome b
left o (running b) = outcome b
left o _ = o

module _ {P : Type 0} (ty : PromiseType P) (bodies : ℕ → Script) where
  -- What a promise may hold.
  abbrev pub Meant : Crowd → ℕ → Outcome → Type 0
  Meant s d o =
      (o ≡ ty.kept (outcome (bodies d))) ⊎ ((o ≡ ty.kept refused) × (s.queue.is_shutdown ≡ true))

  pub record Means (s : Crowd) (d : ℕ) : Type 0 where
    pub leads : left (outcome (bodies d)) (s.stage d) ≡ outcome (bodies d)
    pub filled : (o : Outcome) → s.promises d ≡ some o → Meant s d o
    pub told : (o : Outcome) → s.caller d ≡ got o → s.promises d ≡ some o

  init-Means : (d : ℕ) → Means (init bodies) d
  unfolding init
  init-Means d = record { leads = refl; filled = λ o e. cc; told = λ o e. cc }

  module _ (s : Crowd) (v : (d : ℕ) → Means s d) where
    -- One coroutine is resumed.
    resumed-Means :
        (c d : ℕ) → Means (record s { stage = update s.stage c (resumed (s.stage c)) }) d
    unfolding resumed
    resumed-Means c d =
        let x = v c in
        let y = v d in
        record {
          leads = ground (arith, x.leads, y.leads);
          filled = λ o h. y.filled o h;
          told = λ o h. y.told o h;
        }

    -- One frame is destroyed.
    destroy-Means :
        (c d : ℕ) → Means (record s { stage = update s.stage c (destroy (s.stage c)) }) d
    unfolding destroy
    destroy-Means c d =
        let x = v c in
        let y = v d in
        record {
          leads = ground (arith, x.leads, y.leads);
          filled = λ o h. y.filled o h;
          told = λ o h. y.told o h;
        }

    after_push-Means :
        (c : ℕ) (next : Script)
        → s.stage c ≡ running (schedule next)
        → (d : ℕ) → Means (after_push ty s c next) d
    after_push-Means c next at d =
        let x = v c in
        let y = v d in
        record {
          leads = ground (arith, x.leads, y.leads);
          filled = λ o h. y.filled o h;
          told = λ o h. y.told o h;
        }

    after_sleep-Means :
        (c delay : ℕ) (next : Script)
        → s.stage c ≡ running (sleep delay next)
        → (d : ℕ) → Means (after_sleep ty s c next) d
    after_sleep-Means c delay next at d =
        let x = v c in
        let y = v d in
        record {
          leads = ground (arith, x.leads, y.leads);
          filled = λ o h. y.filled o h;
          told = λ o h. y.told o h;
        }

    after_end-Means :
        (c : ℕ) (body : Script) (o : Outcome)
        → s.stage c ≡ running body
        → s.promises c ≡ none
        → Ends ty s body o
        → (d : ℕ) → Means (after_end ty s c o) d
    after_end-Means c body o at unfilled h d =
        let x = v c in
        let y = v d in
        record {
          leads = ground (arith, x.leads, y.leads);
          filled = λ o' e. ground (arith, x.leads, y.filled o');
          told = λ o' e. ground (arith, x.told o', y.told o');
        }

    segment-Means :
        (c : ℕ) (body : Script)
        → s.stage c ≡ running body
        → s.promises c ≡ none
        → (d : ℕ) → Means (segment ty s c body) d
    segment-Means c body at unfilled d = elim (segment-cases ty s c body) [
      | inl (next, same, e) ↦
          subst (λ t. Means t d) (sym e) (after_push-Means c next (at ∙ ap running same) d)
      | inr (inl (delay, next, same, e)) ↦
          subst (λ t. Means t d) (sym e) (after_sleep-Means c delay next (at ∙ ap running same) d)
      | inr (inr (o, h, e)) ↦
          subst (λ t. Means t d) (sym e) (after_end-Means c body o at unfilled h d)
    ]

    -- A caller moves, not yet or truly to its outcome.
    told-Means :
        (c : ℕ) (k : Caller)
        → ((o : Outcome) → k ≡ got o → s.promises c ≡ some o)
        → (d : ℕ) → Means (record s { caller = update s.caller c k }) d
    told-Means c k h d =
        let y = v d in
        record {
          leads = y.leads;
          filled = λ o e. y.filled o e;
          told = λ o e. ground (arith, h o, y.told o);
        }

    takes-Means :
        (c : ℕ) (q : TaskQueue ℕ) (worker : ℕ → Option ℕ)
        → q.is_shutdown ≡ s.queue.is_shutdown
        → (d : ℕ)
        → Means
            (record s {
              queue = q;
              worker = worker;
              stage = update s.stage c (resumed (s.stage c));
            })
            d
    takes-Means c q worker same d =
        let y = resumed-Means c d in
        record {
          leads = y.leads;
          filled = λ o e. ground (arith, y.filled o);
          told = λ o e. y.told o e;
        }

    fires-Means :
        (c : ℕ) (timers : ℕ → ℕ) (worker : ℕ → Option ℕ) (d : ℕ)
        → Means
            (record s {
              timers = timers;
              worker = worker;
              stage = update s.stage c (resumed (s.stage c));
            })
            d
    fires-Means c timers worker d =
        let y = resumed-Means c d in record { leads = y.leads; filled = y.filled; told = y.told }

    shuts-Means : (d : ℕ) → Means (record s { queue = shutdown s.queue }) d
    unfolding shutdown
    shuts-Means d =
        let y = v d in
        record {
          leads = y.leads;
          filled = λ o e. ground (arith, y.filled o);
          told = λ o e. y.told o e;
        }

    worker-Means : (worker : ℕ → Option ℕ) (d : ℕ) → Means (record s { worker = worker }) d
    worker-Means worker d =
        let y = v d in record { leads = y.leads; filled = y.filled; told = y.told }

  Step-Means :
      {m l n : ℕ} {s t : Crowd}
      → ((d : ℕ) → Sound n s d)
      → ((d : ℕ) → Means s d)
      → Step ty m l n s t
      → (d : ℕ) → Means t d
  Step-Means {s = s} w v (gets c lt e) =
      told-Means (record s { stage = update s.stage c (resumed (s.stage c)) }) (resumed-Means s v c)
        c resuming (λ o h. cc)
  Step-Means {s = s} w v (suspends c body e at) =
      segment-Means (record s { caller = update s.caller c waiting })
        (told-Means s v c waiting (λ o h. cc)) c body at (ground (arith, (w c).allowed))
  Step-Means {s = s} w v (takes i c q low lt e took) =
      let (_, same) = try_pop-some s.queue q c took in
      takes-Means s v c q (update s.worker i (some c)) same
  Step-Means {s = s} w v (fires i c k low lt e more) =
      fires-Means s v c (update s.timers c k) (update s.worker i (some c))
  Step-Means {s = s} w v (works i c body lt e at) =
      segment-Means (record s { worker = update s.worker i none })
        (worker-Means s v (update s.worker i none)) c body at (ground (arith, (w c).allowed))
  Step-Means {s = s} w v (receives c o e p) = told-Means s v c (got o) (λ o' h. cc)
  Step-Means {s = s} w v (destroys c lt e) =
      told-Means (record s { stage = update s.stage c (destroy (s.stage c)) }) (destroy-Means s v c)
        c gone (λ o h. cc)
  Step-Means {s = s} w v shuts = shuts-Means s v

  pub Reach-Means : {m l n : ℕ} {s : Crowd} → Reach ty m l n bodies s → (d : ℕ) → Means s d
  Reach-Means start = init-Means
  Reach-Means (later r st) = Step-Means (Reach-Sound ty r) (Reach-Means r) st

  -- In every interleaving, what `get` returns or throws is what the body of this coroutine, and no
  -- other, ends with, as its promise type keeps it; or, if the pool has been shut down, what `submit`
  -- throws to a coroutine that wants to go on there.
  pub got_outcome :
      {m l n : ℕ} {s : Crowd}
      → Reach ty m l n bodies s
      → (c : ℕ) (o : Outcome) → s.caller c ≡ got o
      → (o ≡ ty.kept (outcome (bodies c))) ⊎ ((o ≡ ty.kept refused) × (s.queue.is_shutdown ≡ true))
  got_outcome r c o e = let y = Reach-Means r c in y.filled o (y.told o e)
