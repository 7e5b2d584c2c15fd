-- ===== src/CoroTask/Crowd/Progress.antt =====
-- include/ate/coro_task.hpp: the work that is left, and who can go on.
use async_task_engine.Common.{
  ℕ, suc, ◌+◌, ◌*◌, ◌<◌, ◌≤◌, ◌≡◌, inl, inr, refl, Bool, ap, true, false, none, update, arith,
  sum_below, sum_below-update,
}
use async_task_engine.CoroPromise.{PromiseType}
use async_task_engine.CoroTask.Crowd.{
  Script, schedule, sleep, ends, sleeping, fires, Stage, unstarted, queued, running, finished,
  Caller, before, resuming, waiting, got, Crowd, init, resumed, segment, Step, gets, suspends,
  takes, works, receives, destroys, gone, destroy, shuts, is_shuts, Reach, start, later,
}
use async_task_engine.CoroTask.Crowd.Segments.{segment-cases}
use async_task_engine.CoroTask.Crowd.Places.{Sound}
use async_task_engine.CoroTask.Crowd.Moves.{try_pop-some}

-- How often the script suspends.
abbrev pub hops : Script → ℕ
hops (schedule next) = suc (hops next)
hops (sleep duration next) = suc (hops next)
hops (ends o) = 0

-- The steps that a coroutine still needs.
abbrev pub stage_cost : Stage → ℕ
stage_cost (unstarted b) = 2 * hops b + 2
stage_cost (queued b) = 2 * hops b + 2
stage_cost (sleeping b) = 2 * hops b + 2
stage_cost (running b) = 2 * hops b + 1
stage_cost _ = 0

abbrev pub caller_cost : Caller → ℕ
caller_cost gone = 0
caller_cost (got o) = 1
caller_cost _ = 2

abbrev pub work_left : ℕ → Crowd → ℕ
work_left m s = sum_below stage_cost m s.stage + sum_below caller_cost m s.caller

abbrev is_before : Caller → Bool
is_before before = true
is_before _ = false

-- The coroutines from `m` on are never started.
abbrev Untouched : ℕ → Crowd → Type 0
Untouched m s = (d : ℕ) → m ≤ d → is_before (s.caller d) ≡ true

module _ {P : Type 0} (ty : PromiseType P) where
  segment-caller : (s : Crowd) (c : ℕ) (body : Script) → (segment ty s c body).caller ≡ s.caller
  segment-caller s c body = elim (segment-cases ty s c body) [
    | inl (next, _, e) ↦ rw e refl
    | inr (inl (_, next, _, e)) ↦ rw e refl
    | inr (inr (o, _, e)) ↦ rw e refl
  ]

  Step-Untouched : {m l n : ℕ} {s t : Crowd} → Untouched m s → Step ty m l n s t → Untouched m t
  Step-Untouched u (gets c lt e) d h = ground (arith, u d h)
  Step-Untouched {s = s} u (suspends c body e at) d h =
      rw (segment-caller (record s { caller = update s.caller c waiting }) c body)
        (ground (arith, u d h))
  Step-Untouched u (takes i c q low lt e took) d h = u d h
  Step-Untouched u (fires i c k low lt e more) d h = u d h
  Step-Untouched {s = s} u (works i c body lt e at) d h =
      rw (segment-caller (record s { worker = update s.worker i none }) c body) (u d h)
  Step-Untouched u (receives c o e p) d h = ground (arith, u d h)
  Step-Untouched u (destroys c lt e) d h = ground (arith, u d h)
  Step-Untouched u shuts d h = u d h

  pub Reach-Untouched :
      {m l n : ℕ} {bodies : ℕ → Script} {s : Crowd} → Reach ty m l n bodies s → Untouched m s
  unfolding init
  Reach-Untouched start d h = refl
  Reach-Untouched (later r st) d h = Step-Untouched (Reach-Untouched r) st d h

  -- A segment brings its coroutine nearer to its end.
  segment-cheaper :
      (m : ℕ) (s : Crowd) (c : ℕ) (body : Script)
      → c < m
      → s.stage c ≡ running body
      → sum_below stage_cost m (segment ty s c body).stage < sum_below stage_cost m s.stage
  segment-cheaper m s c body lt at = elim (segment-cases ty s c body) [
    | inl (next, same, e) ↦
        rw e (ground (arith, sum_below-update stage_cost m s.stage c (queued next) lt))
    | inr (inl (_, next, same, e)) ↦
        rw e (ground (arith, sum_below-update stage_cost m s.stage c (sleeping next) lt))
    | inr (inr (o, _, e)) ↦
        rw e (ground (arith, sum_below-update stage_cost m s.stage c finished lt))
  ]

  -- Each step of a thread brings the end nearer, whichever thread it is.
  pub Step-cheaper :
      {m l n : ℕ} {s t : Crowd}
      → ((d : ℕ) → Sound n s d)
      → Untouched m s
      → (st : Step ty m l n s t) → is_shuts ty st ≡ false
      → work_left m t < work_left m s
  unfolding resumed destroy
  Step-cheaper {m} {s = s} w u (gets c lt e) go =
      (ground (
        arith,
        (w c).allowed,
        sum_below-update stage_cost m s.stage c (resumed (s.stage c)) lt,
        sum_below-update caller_cost m s.caller c resuming lt,
      ))
  Step-cheaper {m} {s = s} w u (suspends c body e at) go =
      let lt : c < m = ground (arith, u c) in
      let freed = record s { caller = update s.caller c waiting } in
      let paid : caller_cost (s.caller c) ≡ 2 = ap caller_cost e in
      (rw (segment-caller freed c body) (
        omega (
          arith,
          segment-cheaper m freed c body lt at,
          paid,
          sum_below-update caller_cost m s.caller c waiting lt,
        )))
  Step-cheaper {m} {s = s} w u (takes i c q low lt e took) go =
      let (head, _) = try_pop-some s.queue q c took in
      let ltc : c < m = ground (arith, u c, (w c).parked, (w c).allowed, head) in
      (ground (
        arith,
        (w c).parked,
        head,
        sum_below-update stage_cost m s.stage c (resumed (s.stage c)) ltc,
      ))
  Step-cheaper {m} {s = s} w u (fires i c k low lt e more) go =
      let ltc : c < m = ground (arith, u c, (w c).slept, (w c).allowed) in
      ground (arith, (w c).slept, sum_below-update stage_cost m s.stage c (resumed (s.stage c)) ltc)
  Step-cheaper {m} {s = s} w u (works i c body lt e at) go =
      let ltc : c < m = ground (arith, u c, (w c).allowed) in
      let freed = record s { worker = update s.worker i none } in
      (rw (segment-caller freed c body) (omega (arith, segment-cheaper m freed c body ltc at)))
  Step-cheaper {m} {s = s} w u (receives c o e p) go =
      let lt : c < m = ground (arith, u c) in
      (ground (arith, sum_below-update caller_cost m s.caller c (got o) lt))
  Step-cheaper {m} {s = s} w u (destroys c lt e) go = ground (
    arith,
    (w c).allowed,
    sum_below-update stage_cost m s.stage c (destroy (s.stage c)) lt,
    sum_below-update caller_cost m s.caller c gone lt,
  )
  Step-cheaper w u shuts go = cc
