-- ===== src/Scheduler/Waiters/Delivery.antt =====
-- include/ate/scheduler.hpp: where the tasks of a shared scheduler are.
use mathlib.Core.List.{Perm, perm_middle}
use mathlib.Core.List.Perm
use async_task_engine.Common.{
  ℕ, sym, subst, inl, inr, [], ◌∷◌, ◌++◌, some, none, List, Option, Bool-cases, append_assoc,
  append-nil,
}
use async_task_engine.Scheduler.{
  TaskPriority, create, push, try_pop, wait_and_pop, shutdown, PriorityTask,
}
use async_task_engine.Scheduler.Drain.{wait_and_pop-eq-try_pop}
use async_task_engine.Scheduler.Pushes.{back, try_pop-perm}
use async_task_engine.Scheduler.Waiters.{
  System, init, log, pushed, popped, entered, Step, pushes, pops, calls, enters, notifies,
  notifies_none, wakes, shuts, notifies_all, requests_stop, Reach, start, later,
}

-- All tasks taken and those queued are the ones accepted.
abbrev IsComplete : System → Type 0
IsComplete s = Perm s.accepted (s.taken ++ s.scheduler.queue)

log-Perm :
    (o : Option PriorityTask) (taken left queue accepted : List PriorityTask)
    → Perm accepted (taken ++ queue)
    → Perm queue (back o left)
    → Perm accepted (log o taken ++ left)
log-Perm none taken left queue accepted h p = Perm.trans h (Perm.append_left taken p)
log-Perm (some t) taken left queue accepted h p =
    subst (Perm accepted) (sym (append_assoc taken (t ∷ []) left))
      (Perm.trans h (Perm.append_left taken p))

more-Perm :
    (t : PriorityTask) (accepted taken queue : List PriorityTask)
    → Perm accepted (taken ++ queue)
    → Perm (accepted ++ t ∷ []) (taken ++ t ∷ queue)
more-Perm t accepted taken queue h =
    let front : Perm (accepted ++ t ∷ []) (t ∷ accepted) =
      subst (λ l. Perm (accepted ++ t ∷ []) (t ∷ l)) (append-nil accepted)
        (perm_middle accepted []) in
    Perm.trans front (Perm.trans (Perm.cons t h) (Perm.symm (perm_middle taken queue)))

pushed-IsComplete :
    (s : System) (func : ℕ) (priority : TaskPriority)
    → IsComplete s
    → IsComplete (pushed s func priority)
unfolding pushed push
pushed-IsComplete s func priority h = elim (Bool-cases s.scheduler.stopped) [
  | inl shut ↦ rw shut h
  | inr up ↦ rw up (
      more-Perm record { func = func; priority = priority; sequence = s.scheduler.next_seq }
        s.accepted s.taken s.scheduler.queue h)
]

popped-IsComplete : (s : System) → IsComplete s → IsComplete (popped s)
unfolding popped
popped-IsComplete s h =
    log-Perm (try_pop s.scheduler).0 s.taken (try_pop s.scheduler).1.queue s.scheduler.queue
      s.accepted h (try_pop-perm s.scheduler)

entered-IsComplete :
    (s : System) (i : ℕ)
    → IsComplete s
    → IsComplete (entered s i (wait_and_pop s.scheduler (s.stop i)))
unfolding entered popped
entered-IsComplete s i h = elim (wait_and_pop-eq-try_pop s.scheduler (s.stop i)) [
  | inl (e, _, _, _) ↦ rw e h
  | inr e ↦ rw e (popped-IsComplete s h)
]

Step-IsComplete : {n : ℕ} {s t : System} → IsComplete s → Step n s t → IsComplete t
unfolding shutdown
Step-IsComplete {s = s} h (pushes func priority) = pushed-IsComplete s func priority h
Step-IsComplete {s = s} h pops = popped-IsComplete s h
Step-IsComplete {s = s} h (enters i lt e) = entered-IsComplete s i h
Step-IsComplete h (calls i o lt e) = h
Step-IsComplete h (notifies k i e lt a) = h
Step-IsComplete h (notifies_none k e nobody) = h
Step-IsComplete h (wakes i lt a) = h
Step-IsComplete h shuts = h
Step-IsComplete h (notifies_all k e) = h
Step-IsComplete h (requests_stop i lt) = h

-- In every interleaving of consumers that wait, threads that push, pop and shut down, each accepted
-- task is either still queued or was handed out, once.
pub delivered_or_queued :
    {n : ℕ} {s : System} → Reach n s → Perm s.accepted (s.taken ++ s.scheduler.queue)
unfolding init create
delivered_or_queued start = Perm.refl []
delivered_or_queued (later r st) = Step-IsComplete (delivered_or_queued r) st
