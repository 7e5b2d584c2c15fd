-- ===== src/CoroTask/Crowd/Places.antt =====
-- include/ate/coro_task.hpp: where the handles of the coroutines are, step after step.
use async_task_engine.Common.{
  ℕ, zero, suc, ◌+◌, ◌≡◌, inl, inr, refl, sym, Bool, true, false, List, [], ◌∷◌, ◌++◌, Option, none,
  some, weight, count_below, ◌==◌, arith, subst,
}
use async_task_engine.AsyncResult.{Outcome}
use async_task_engine.TaskQueue.{empty}
use async_task_engine.CoroPromise.{PromiseType}
use async_task_engine.CoroTask.Crowd.{
  Script, sleeping, Stage, unstarted, queued, running, finished, Caller, before, resuming, waiting,
  got, gone, destroyed, Crowd, init, segment,
}
use async_task_engine.CoroTask.Crowd.Segments.{after_push, after_sleep, after_end, segment-cases}

-- How often a handle is in the queue.
abbrev pub times : ℕ → List ℕ → ℕ
times d [] = 0
times d (c ∷ cs) = weight (c == d) + times d cs

times-append : (d c : ℕ) (cs : List ℕ) → times d (cs ++ c ∷ []) ≡ times d cs + weight (c == d)
times-append d c [] = omega arith
times-append d c (b ∷ cs) = omega (arith, times-append d c cs)

abbrev pub is_at : ℕ → Option ℕ → Bool
is_at d none = false
is_at d (some c) = c == d

abbrev pub is_resuming : Caller → Bool
is_resuming resuming = true
is_resuming _ = false

abbrev pub is_queued : Stage → Bool
is_queued (queued body) = true
is_queued _ = false

abbrev pub is_sleeping : Stage → Bool
is_sleeping (sleeping body) = true
is_sleeping _ = false

abbrev pub is_active : Stage → Bool
is_active (sleeping body) = true
is_active (queued body) = true
is_active (running body) = true
is_active _ = false

-- Where a caller, its coroutine and its promise can be at one time.
abbrev pub is_allowed : Caller → Stage → Option Outcome → Bool
is_allowed before (unstarted body) none = true
is_allowed resuming (running body) none = true
is_allowed waiting (running body) none = true
is_allowed waiting (queued body) none = true
is_allowed waiting (sleeping body) none = true
is_allowed waiting finished (some o) = true
is_allowed (got o) finished (some o') = true
is_allowed gone destroyed p = true
is_allowed _ _ _ = false

-- Those who are to resume a coroutine or are doing so: its handles in the queue and in timers, the
-- workers, and its caller.
abbrev pub holders : ℕ → Crowd → ℕ → ℕ
holders n s d =
    times d s.queue.tasks
    + (s.timers d + (count_below (is_at d) n s.worker + weight (is_resuming (s.caller d))))

pub record Sound (n : ℕ) (s : Crowd) (d : ℕ) : Type 0 where
  pub held : holders n s d ≡ weight (is_active (s.stage d))
  pub parked : times d s.queue.tasks ≡ weight (is_queued (s.stage d))
  pub slept : s.timers d ≡ weight (is_sleeping (s.stage d))
  pub allowed : is_allowed (s.caller d) (s.stage d) (s.promises d) ≡ true

nobody : (d n : ℕ) → count_below (is_at d) n (λ i. none) ≡ 0
unfolding count_below
nobody d zero = refl
nobody d (suc n) = omega (arith, nobody d n)

pub init-Sound : (n : ℕ) (bodies : ℕ → Script) (d : ℕ) → Sound n (init bodies) d
unfolding init empty
init-Sound n bodies d = record {
  held = omega (arith, nobody d n);
  parked = refl;
  slept = refl;
  allowed = refl;
}

-- The thread that runs coroutine `c` is taken out of the account.
pub record Freed (n : ℕ) (s : Crowd) (c d : ℕ) : Type 0 where
  pub held : holders n s d + weight (c == d) ≡ weight (is_active (s.stage d))
  pub parked : times d s.queue.tasks ≡ weight (is_queued (s.stage d))
  pub slept : s.timers d ≡ weight (is_sleeping (s.stage d))
  pub allowed : is_allowed (s.caller d) (s.stage d) (s.promises d) ≡ true

module _ {n : ℕ} {P : Type 0} (ty : PromiseType P) (s : Crowd) (c : ℕ) (body : Script)
    (at : s.stage c ≡ running body) (v : (d : ℕ) → Freed n s c d) where
  after_push-Sound : (next : Script) (d : ℕ) → Sound n (after_push ty s c next) d
  after_push-Sound next d =
      let x = v c in
      let y = v d in
      let more = times-append d c s.queue.tasks in
      record {
        held = ground (arith, x.held, y.held, more);
        parked = ground (arith, x.parked, y.parked, more);
        slept = ground (arith, x.slept, y.slept, x.parked, x.allowed);
        allowed = ground (arith, x.allowed, y.allowed, x.held);
      }

  after_sleep-Sound : (next : Script) (d : ℕ) → Sound n (after_sleep ty s c next) d
  after_sleep-Sound next d =
      let x = v c in
      let y = v d in
      record {
        held = ground (arith, x.held, y.held);
        parked = ground (arith, x.parked, y.parked);
        slept = ground (arith, x.slept, y.slept);
        allowed = ground (arith, x.allowed, y.allowed, x.held);
      }

  after_end-Sound : (o : Outcome) (d : ℕ) → Sound n (after_end ty s c o) d
  after_end-Sound o d =
      let x = v c in
      let y = v d in
      record {
        held = ground (arith, x.held, y.held);
        parked = ground (arith, x.parked, y.parked);
        slept = ground (arith, x.slept, y.slept, x.parked, x.allowed);
        allowed = ground (arith, x.allowed, y.allowed, x.held);
      }

  pub segment-Sound : (d : ℕ) → Sound n (segment ty s c body) d
  segment-Sound d = elim (segment-cases ty s c body) [
    | inl (next, _, e) ↦ subst (λ t. Sound n t d) (sym e) (after_push-Sound next d)
    | inr (inl (_, next, _, e)) ↦ subst (λ t. Sound n t d) (sym e) (after_sleep-Sound next d)
    | inr (inr (o, _, e)) ↦ subst (λ t. Sound n t d) (sym e) (after_end-Sound o d)
  ]
