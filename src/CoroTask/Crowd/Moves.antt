-- ===== src/CoroTask/Crowd/Moves.antt =====
-- include/ate/coro_task.hpp: where the handles are after each step.
use async_task_engine.Common.{
  ℕ, suc, ◌<◌, ◌≡◌, true, ◌∷◌, none, some, update, count_below-update, arith,
}
use async_task_engine.AsyncResult.{Outcome}
use async_task_engine.TaskQueue.{TaskQueue, try_pop, shutdown}
use async_task_engine.CoroPromise.{PromiseType}
use async_task_engine.CoroTask.Crowd.{
  Script, fires, running, before, resuming, waiting, got, gone, destroy, is_home, Crowd, resumed,
  Step, gets, suspends, takes, works, receives, destroys, shuts, Reach, start, later,
}
use async_task_engine.CoroTask.Crowd.Places.{is_at, Sound, Freed, init-Sound, segment-Sound}

pub try_pop-some :
    (q p : TaskQueue ℕ) (c : ℕ)
    → try_pop q ≡ (some c, p)
    → (q.tasks ≡ c ∷ p.tasks) × (p.is_shutdown ≡ q.is_shutdown)
unfolding try_pop
try_pop-some q p c e = ground arith

module _ {n : ℕ} (s : Crowd) (v : (d : ℕ) → Sound n s d) where
  gets-Sound :
      (c : ℕ)
      → s.caller c ≡ before
      → (d : ℕ)
      → Sound n
          (record s {
            caller = update s.caller c resuming;
            stage = update s.stage c (resumed (s.stage c));
          })
          d
  unfolding resumed
  gets-Sound c e d =
      let x = v c in
      let y = v d in
      record {
        held = ground (arith, x.held, y.held, x.allowed);
        parked = ground (arith, x.parked, y.parked, x.allowed);
        slept = ground (arith, x.slept, y.slept, x.allowed, x.parked, x.allowed);
        allowed = ground (arith, x.allowed, y.allowed, x.held);
      }

  suspends-Freed :
      (c : ℕ) (body : Script)
      → s.caller c ≡ resuming
      → s.stage c ≡ running body
      → (d : ℕ) → Freed n (record s { caller = update s.caller c waiting }) c d
  suspends-Freed c body e at d =
      let x = v c in
      let y = v d in
      record {
        held = ground (arith, x.held, y.held);
        parked = y.parked;
        slept = y.slept;
        allowed = ground (arith, x.allowed, y.allowed, x.held);
      }

  works-Freed :
      (i c : ℕ)
      → i < n
      → s.worker i ≡ some c
      → (d : ℕ) → Freed n (record s { worker = update s.worker i none }) c d
  works-Freed i c lt e d =
      let y = v d in
      record {
        held = ground (arith, y.held, count_below-update (is_at d) n s.worker i none lt);
        parked = y.parked;
        slept = y.slept;
        allowed = y.allowed;
      }

  takes-Sound :
      (i c : ℕ) (q : TaskQueue ℕ)
      → i < n
      → s.worker i ≡ none
      → try_pop s.queue ≡ (some c, q)
      → (d : ℕ)
      → Sound n
          (record s {
            queue = q;
            worker = update s.worker i (some c);
            stage = update s.stage c (resumed (s.stage c));
          })
          d
  unfolding resumed
  takes-Sound i c q lt e took d =
      let x = v c in
      let y = v d in
      let (head, _) = try_pop-some s.queue q c took in
      record {
        held = ground (
          arith,
          x.held,
          y.held,
          x.parked,
          head,
          count_below-update (is_at d) n s.worker i (some c) lt,
        );
        parked = ground (arith, x.parked, y.parked, head);
        slept = ground (arith, x.slept, y.slept, head, x.parked, x.allowed);
        allowed = ground (arith, x.allowed, y.allowed, x.parked, head);
      }

  fires-Sound :
      (i c k : ℕ)
      → i < n
      → s.worker i ≡ none
      → s.timers c ≡ suc k
      → (d : ℕ)
      → Sound n
          (record s {
            timers = update s.timers c k;
            worker = update s.worker i (some c);
            stage = update s.stage c (resumed (s.stage c));
          })
          d
  unfolding resumed
  fires-Sound i c k lt e more d =
      let x = v c in
      let y = v d in
      record {
        held =
            ground (
              arith,
              x.held,
              y.held,
              x.slept,
              count_below-update (is_at d) n s.worker i (some c) lt,
            );
        parked = ground (arith, x.parked, y.parked, x.slept);
        slept = ground (arith, x.slept, y.slept);
        allowed = ground (arith, x.allowed, y.allowed, x.slept);
      }

  receives-Sound :
      (c : ℕ) (o : Outcome)
      → s.caller c ≡ waiting
      → s.promises c ≡ some o
      → (d : ℕ) → Sound n (record s { caller = update s.caller c (got o) }) d
  receives-Sound c o e p d =
      let x = v c in
      let y = v d in
      record {
        held = ground (arith, y.held);
        parked = y.parked;
        slept = y.slept;
        allowed = ground (arith, x.allowed, y.allowed, x.held);
      }

  destroys-Sound :
      (c : ℕ)
      → is_home (s.caller c) ≡ true
      → (d : ℕ)
      → Sound n
          (record s {
            caller = update s.caller c gone;
            stage = update s.stage c (destroy (s.stage c));
          })
          d
  unfolding destroy
  destroys-Sound c e d =
      let x = v c in
      let y = v d in
      record {
        held = ground (arith, x.held, y.held, x.allowed);
        parked = ground (arith, x.parked, y.parked, x.allowed);
        slept = ground (arith, x.slept, y.slept, x.allowed, x.parked, x.allowed);
        allowed = ground (arith, x.allowed, y.allowed);
      }

Step-Sound :
    {P : Type 0} (ty : PromiseType P) {m l n : ℕ} {s t : Crowd}
    → ((d : ℕ) → Sound n s d)
    → Step ty m l n s t
    → (d : ℕ) → Sound n t d
unfolding shutdown
Step-Sound ty {s = s} v (gets c lt e) = gets-Sound s v c e
Step-Sound ty {s = s} v (suspends c body e at) =
    segment-Sound ty _ c body at (suspends-Freed s v c body e at)
Step-Sound ty {s = s} v (takes i c q low lt e took) = takes-Sound s v i c q lt e took
Step-Sound ty {s = s} v (fires i c k low lt e more) = fires-Sound s v i c k lt e more
Step-Sound ty {s = s} v (works i c body lt e at) =
    segment-Sound ty _ c body at (works-Freed s v i c lt e)
Step-Sound ty {s = s} v (receives c o e p) = receives-Sound s v c o e p
Step-Sound ty {s = s} v (destroys c lt e) = destroys-Sound s v c e
Step-Sound ty {s = s} v shuts = λ d.
    let y = v d in record { held = y.held; parked = y.parked; slept = y.slept; allowed = y.allowed }

pub Reach-Sound :
    {P : Type 0} (ty : PromiseType P) {m l n : ℕ} {bodies : ℕ → Script} {s : Crowd}
    → Reach ty m l n bodies s
    → (d : ℕ) → Sound n s d
Reach-Sound ty {m} {l} {n} {bodies} start = init-Sound n bodies
Reach-Sound ty (later r st) = Step-Sound ty (Reach-Sound ty r) st
