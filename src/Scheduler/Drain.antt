-- ===== src/Scheduler/Drain.antt =====
-- include/ate/scheduler.hpp: the order in which tasks leave the scheduler.
use mathlib.Core.List.{Perm}
use async_task_engine.Common.{
  ℕ, ◌+◌, ◌%◌, ◌^◌, ◌<◌, ◌≡◌, refl, sym, ◌⊎◌, inl, inr, Bool, true, false, List, [], ◌∷◌, Option,
  none, some, arith, subst, Bool-cases, List-cases,
}
use async_task_engine.Scheduler.{
  TaskPriority, PriorityTask, Scheduler, push, pop_top, try_pop, wait_and_pop, empty,
}
use async_task_engine.Scheduler.Order.{Before}
use async_task_engine.Scheduler.Top.{
  All, Distinct, All-mono, take_top-All, take_top-perm, take_top-Distinct, take_top-Before,
}

-- The sequence numbers in the queue are distinct and have all been handed out.
pub record IsNumbered (s : Scheduler) : Type 0 where
  pub distinct : Distinct s.queue
  pub below : All (λ t. t.sequence < s.next_seq) s.queue

-- What is popped, with what is left.
abbrev pub Pops : Scheduler → Option PriorityTask × Scheduler → Type 0
Pops s (none, s') = (s.queue ≡ []) × (s' ≡ s)
Pops s (some t, s') =
    Perm s.queue (t ∷ s'.queue) × All (Before t) s'.queue × IsNumbered s' × (s'.stopped ≡ s.stopped)

pop_top-Pops :
    (s : Scheduler) (ts : List PriorityTask) → ts ≡ s.queue → IsNumbered s → Pops s (pop_top s ts)
unfolding pop_top
pop_top-Pops s [] e v = (sym e, refl)
pop_top-Pops s (t ∷ ts) e v =
    let d : Distinct (t ∷ ts) = subst Distinct (sym e) v.distinct in
    let b : All (λ u. u.sequence < s.next_seq) (t ∷ ts) =
      subst (All (λ u. u.sequence < s.next_seq)) (sym e) v.below in
    (
      rw (← e) (take_top-perm t ts),
      take_top-Before t ts d,
      record {
        distinct = (take_top-Distinct t ts d).1;
        below = (take_top-All (λ u. u.sequence < s.next_seq) t ts b.0 b.1).1;
      },
      refl,
    )

-- `try_pop` fails only on an empty queue, and otherwise takes out the task that is served before
-- every other: the highest priority, and among equals the one pushed first. Nothing else leaves.
pub try_pop-Pops : (s : Scheduler) → IsNumbered s → Pops s (try_pop s)
unfolding try_pop
try_pop-Pops s v = pop_top-Pops s s.queue refl v

-- `wait_and_pop` goes to sleep only if the queue is empty, the scheduler open and no stop is
-- requested, and otherwise does what `try_pop` does.
pub wait_and_pop-eq-try_pop :
    (s : Scheduler) (stop : Bool)
    → ((wait_and_pop s stop ≡ none) × (s.queue ≡ []) × (s.stopped ≡ false) × (stop ≡ false))
      ⊎ (wait_and_pop s stop ≡ some (try_pop s))
unfolding wait_and_pop try_pop pop_top empty
wait_and_pop-eq-try_pop s stop = elim (List-cases s.queue) [
  | inl e ↦ simp e (ground arith)
  | inr (t, ts, e) ↦ simp e (ground arith)
]

push-stopped :
    (s : Scheduler) (func : ℕ) (priority : TaskPriority)
    → s.stopped ≡ true
    → (push s func priority).1 ≡ s
unfolding push
push-stopped s func priority shut = simp (shut) refl

push-open :
    (s : Scheduler) (func : ℕ) (priority : TaskPriority)
    → s.stopped ≡ false
    → (push s func priority).1 ≡ record s {
      queue = record { func = func; priority = priority; sequence = s.next_seq } ∷ s.queue;
      next_seq = (s.next_seq + 1) % 2 ^ 64;
    }
unfolding push
push-open s func priority up = simp (up) refl

-- A push into an open scheduler keeps the numbering, as long as the counter does not wrap; into a
-- stopped one it changes nothing.
pub push-IsNumbered :
    (s : Scheduler) (func : ℕ) (priority : TaskPriority)
    → IsNumbered s
    → s.next_seq + 1 < 2 ^ 64
    → IsNumbered (push s func priority).1
unfolding push
push-IsNumbered s func priority v few = elim (Bool-cases s.stopped) [
  | inl shut ↦ subst IsNumbered (sym (push-stopped s func priority shut)) v
  | inr up ↦ subst IsNumbered (sym (push-open s func priority up)) record {
    distinct = (All-mono (λ u h. λ k. omega arith) s.queue v.below, v.distinct);
    below = (omega arith, All-mono (λ u h. omega arith) s.queue v.below);
  }
]
