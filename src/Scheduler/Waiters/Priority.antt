-- ===== src/Scheduler/Waiters/Priority.antt =====
-- include/ate/scheduler.hpp: which task a waiting consumer is handed.
use mathlib.Core.Option.{none-ne-some, some-injective}
use async_task_engine.Common.{
  ℕ, suc, ◌+◌, ◌^◌, ◌<◌, ◌≤◌, ◌≡◌, refl, sym, ap, subst, ◌∙◌, inl, inr, true, false, [], ◌∷◌, ◌++◌,
  Option, none, some, length, length-append, arith, Bool-cases,
}
use async_task_engine.Scheduler.{
  TaskPriority, PriorityTask, Scheduler, create, push, try_pop, wait_and_pop, shutdown,
}
use async_task_engine.Scheduler.Drain.{
  IsNumbered, Pops, try_pop-Pops, push-IsNumbered, wait_and_pop-eq-try_pop,
}
use async_task_engine.Scheduler.History.{create-IsNumbered, Pops-IsNumbered, pop_top-next_seq}
use async_task_engine.Scheduler.Waiters.{
  System, init, pushed, popped, entered, Step, pushes, pops, calls, enters, notifies, notifies_none,
  wakes, shuts, notifies_all, requests_stop, Reach, start, later,
}

-- The sequence numbers are in order, and the next one is the number of tasks accepted so far.
record Counted (s : System) : Type 0 where
  numbered : IsNumbered s.scheduler
  next : s.scheduler.next_seq ≡ length s.accepted

pushed-shut :
    (s : System) (func : ℕ) (priority : TaskPriority)
    → s.scheduler.stopped ≡ true
    → pushed s func priority ≡ s
unfolding pushed push
pushed-shut s func priority shut = ground arith

abbrev next_task : System → ℕ → TaskPriority → PriorityTask
next_task s func priority = record {
  func = func;
  priority = priority;
  sequence = s.scheduler.next_seq;
}

pushed-open :
    (s : System) (func : ℕ) (priority : TaskPriority)
    → s.scheduler.stopped ≡ false
    → pushed s func priority ≡ record s {
      scheduler = (push s.scheduler func priority).1;
      notifiers = suc s.notifiers;
      accepted = s.accepted ++ next_task s func priority ∷ [];
    }
unfolding pushed push
pushed-open s func priority up = ground arith

push-next_seq :
    (s : Scheduler) (func : ℕ) (priority : TaskPriority)
    → s.stopped ≡ false
    → s.next_seq + 1 < 2 ^ 64
    → (push s func priority).1.next_seq ≡ s.next_seq + 1
unfolding push
push-next_seq s func priority up few = ground arith

pushed-Counted :
    (s : System) (func : ℕ) (priority : TaskPriority)
    → Counted s
    → length (pushed s func priority).accepted + 1 < 2 ^ 64
    → Counted (pushed s func priority)
unfolding pushed push
pushed-Counted s func priority v few = elim (Bool-cases s.scheduler.stopped) [
  | inl shut ↦ subst Counted (sym (pushed-shut s func priority shut)) v
  | inr up ↦
      let e = pushed-open s func priority up in
      let grown = length-append s.accepted (next_task s func priority ∷ []) in
      let room : s.scheduler.next_seq + 1 < 2 ^ 64 =
        omega (arith, v.next, grown, ap (λ t. length t.accepted) e, few) in
      subst Counted (sym e) record {
        numbered = push-IsNumbered s.scheduler func priority v.numbered room;
        next = omega (arith, push-next_seq s.scheduler func priority up room, v.next, grown);
      }
]

try_pop-Counted :
    (s : System) → Counted s → Counted (record s { scheduler = (try_pop s.scheduler).1 })
unfolding try_pop
try_pop-Counted s v = record {
  numbered =
      Pops-IsNumbered s.scheduler (try_pop s.scheduler) v.numbered
        (try_pop-Pops s.scheduler v.numbered);
  next = pop_top-next_seq s.scheduler s.scheduler.queue ∙ v.next;
}

entered-Counted :
    (s : System) (i : ℕ) → Counted s → Counted (entered s i (wait_and_pop s.scheduler (s.stop i)))
unfolding entered
entered-Counted s i v = elim (wait_and_pop-eq-try_pop s.scheduler (s.stop i)) [
  | inl (e, _, _, _) ↦ rw e (record { numbered = v.numbered; next = v.next })
  | inr e ↦ rw e (let w = try_pop-Counted s v in record { numbered = w.numbered; next = w.next })
]

entered-accepted :
    (s : System) (i : ℕ) (w : Option (Option PriorityTask × Scheduler))
    → (entered s i w).accepted ≡ s.accepted
unfolding entered
entered-accepted s i none = refl
entered-accepted s i (some (o, p)) = refl

pushed-more :
    (s : System) (func : ℕ) (priority : TaskPriority)
    → length s.accepted ≤ length (pushed s func priority).accepted
unfolding pushed push
pushed-more s func priority =
    ground (arith, length-append s.accepted (next_task s func priority ∷ []))

Step-Counted :
    {n : ℕ} {s t : System}
    → (length s.accepted + 1 < 2 ^ 64 → Counted s)
    → Step n s t
    → length t.accepted + 1 < 2 ^ 64
    → Counted t
unfolding popped shutdown
Step-Counted {s = s} v (pushes func priority) few =
    pushed-Counted s func priority (v (omega (arith, few, pushed-more s func priority))) few
Step-Counted {s = s} v pops few =
    let w = try_pop-Counted s (v few) in record { numbered = w.numbered; next = w.next }
Step-Counted {s = s} v (enters i lt e) few = entered-Counted s i (
    v (
      subst (λ l. length l + 1 < 2 ^ 64)
        (entered-accepted s i (wait_and_pop s.scheduler (s.stop i))) few))
Step-Counted v (calls i o lt e) few =
    let w = v few in record { numbered = w.numbered; next = w.next }
Step-Counted v (notifies k i e lt a) few =
    let w = v few in record { numbered = w.numbered; next = w.next }
Step-Counted v (notifies_none k e nobody) few =
    let w = v few in record { numbered = w.numbered; next = w.next }
Step-Counted v (wakes i lt a) few = let w = v few in record { numbered = w.numbered; next = w.next }
Step-Counted v shuts few =
    let w = v few in
    record {
      numbered = record { distinct = w.numbered.distinct; below = w.numbered.below };
      next = w.next;
    }
Step-Counted v (notifies_all k e) few =
    let w = v few in record { numbered = w.numbered; next = w.next }
Step-Counted v (requests_stop i lt) few =
    let w = v few in record { numbered = w.numbered; next = w.next }

Reach-Counted : {n : ℕ} {s : System} → Reach n s → length s.accepted + 1 < 2 ^ 64 → Counted s
unfolding init create
Reach-Counted start few = record { numbered = create-IsNumbered; next = refl }
Reach-Counted (later r st) few = Step-Counted (Reach-Counted r) st few

-- As long as fewer than 2^64 - 1 tasks were accepted, a consumer that has the mutex is handed, in
-- every interleaving, the task of the highest priority that is queued and among these the one that
-- was pushed first; it returns without a task only if none is queued.
pub handed_first :
    {n : ℕ} {s : System}
    → Reach n s
    → length s.accepted + 1 < 2 ^ 64
    → (i : ℕ) (o : Option PriorityTask) (p : Scheduler)
    → wait_and_pop s.scheduler (s.stop i) ≡ some (o, p)
    → Pops s.scheduler (o, p)
handed_first {s = s} r few i o p e = elim (wait_and_pop-eq-try_pop s.scheduler (s.stop i)) [
  | inl (asleep, _, _, _) ↦ elim (none-ne-some (o, p) (sym asleep ∙ e)) [ ]
  | inr same ↦
      subst (Pops s.scheduler) (some-injective _ _ (sym same ∙ e))
        (try_pop-Pops s.scheduler (Reach-Counted r few).numbered)
]
