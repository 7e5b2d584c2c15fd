-- ===== src/CoroTask/Crowd/Segments.antt =====
-- include/ate/coro_task.hpp: the ways in which a run of the body to its next suspension ends.
use async_task_engine.Common.{
  ℕ, suc, ◌≡◌, ◌⊎◌, inl, inr, refl, ap, ◌∙◌, true, false, [], ◌∷◌, ◌++◌, some, update, Bool-cases,
}
use async_task_engine.AsyncResult.{Outcome}
use async_task_engine.TaskQueue.{TaskQueue, push}
use async_task_engine.CoroPromise.{PromiseType}
use async_task_engine.CoroTask.Crowd.{
  Script, schedule, sleep, ends, sleeping, start_timer, queued, finished, Crowd, refused, finish,
  await_suspend, segment,
}

-- How the script ends.
abbrev pub outcome : Script → Outcome
outcome (schedule next) = outcome next
outcome (sleep duration next) = outcome next
outcome (ends o) = o

push-shut : (q : TaskQueue ℕ) (c : ℕ) → q.is_shutdown ≡ true → push q c ≡ (false, q)
unfolding push
push-shut q c shut = simp shut refl

push-open :
    (q : TaskQueue ℕ) (c : ℕ)
    → q.is_shutdown ≡ false
    → push q c ≡ (true, record q { tasks = q.tasks ++ c ∷ [] })
unfolding push
push-open q c up = simp up refl

-- The two ways in which a segment ends.
module _ {P : Type 0} (ty : PromiseType P) where
  abbrev pub after_push : Crowd → ℕ → Script → Crowd
  after_push s c next = record s {
    queue = record s.queue { tasks = s.queue.tasks ++ c ∷ [] };
    stage = update s.stage c (queued next);
  }

  abbrev pub after_sleep : Crowd → ℕ → Script → Crowd
  after_sleep s c next = record s {
    timers = update s.timers c (suc (s.timers c));
    stage = update s.stage c (sleeping next);
  }

  abbrev pub after_end : Crowd → ℕ → Outcome → Crowd
  after_end s c o = record s {
    stage = update s.stage c finished;
    promises = update s.promises c (some (ty.kept o));
  }

  abbrev pub Ends : Crowd → Script → Outcome → Type 0
  Ends s body o = (o ≡ outcome body) ⊎ ((o ≡ refused) × (s.queue.is_shutdown ≡ true))

  finish_lem : (s : Crowd) (c : ℕ) (o : Outcome) → finish ty s c o ≡ after_end s c o
  unfolding finish
  finish_lem s c o = rw (ty.final_await-complete c o s.promises, finish) refl

  pub segment-cases :
      (s : Crowd) (c : ℕ) (body : Script)
      → ((next : Script) × (body ≡ schedule next) × (segment ty s c body ≡ after_push s c next))
        ⊎ ((d : ℕ) × (next : Script) × (body ≡ sleep d next)
            × (segment ty s c body ≡ after_sleep s c next))
        ⊎ ((o : Outcome) × Ends s body o × (segment ty s c body ≡ after_end s c o))
  unfolding segment await_suspend start_timer
  segment-cases s c (sleep d next) = inr (inl (d, next, refl, refl))
  segment-cases s c (ends o) = inr (inr (o, inl refl, finish_lem s c o))
  segment-cases s c (schedule next) = elim (Bool-cases s.queue.is_shutdown) [
    | inl shut ↦ inr (
        inr (
          refused,
          inr (refl, shut),
          ap (await_suspend ty s c next) (push-shut s.queue c shut) ∙ finish_lem s c refused,
        ))
    | inr up ↦ inl (next, refl, ap (await_suspend ty s c next) (push-open s.queue c up))
  ]
