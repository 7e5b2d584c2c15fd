-- ===== src/Scheduler/Waiters/History.antt =====
-- include/ate/scheduler.hpp: the interleaved critical sections as one sequence of calls.
use async_task_engine.Common.{
  ℕ, ◌≡◌, refl, sym, ap, ap₂, ◌∙◌, inl, inr, [], ◌∷◌, ◌++◌, some, none, arith, List, Option,
  append_assoc, append-nil,
}
use async_task_engine.Scheduler.{
  TaskPriority, Scheduler, create, push, try_pop, wait_and_pop, PriorityTask,
}
use async_task_engine.Scheduler.Drain.{wait_and_pop-eq-try_pop}
use async_task_engine.Scheduler.History.{Call, perform, run}
use async_task_engine.Scheduler.History as History
use async_task_engine.Scheduler.Heap.{
  Answer, popped as got, accepted, done, call, answers, handed_by, handed,
}
use async_task_engine.Scheduler.Heap.Agree.{call-perform}
use async_task_engine.Scheduler.Waiters.{
  System, init, log, pushed, popped, entered, Step, pushes, pops, calls, enters, notifies,
  notifies_none, wakes, shuts, notifies_all, requests_stop, Reach, start, later,
}

-- The calls that an interleaving amounts to: a `wait_and_pop` that returns is one `try_pop`, and
-- one that goes to sleep is none.
abbrev pub waited_calls : Option (Option PriorityTask × Scheduler) → List Call
waited_calls none = []
waited_calls (some _) = History.pops ∷ []

abbrev pub step_calls : {n : ℕ} {s t : System} → Step n s t → List Call
step_calls (pushes func priority) = History.pushes func priority ∷ []
step_calls pops = History.pops ∷ []
step_calls {s = s} (enters i lt e) = waited_calls (wait_and_pop s.scheduler (s.stop i))
step_calls shuts = History.shuts ∷ []
step_calls (calls i o lt e) = []
step_calls (notifies k i e lt a) = []
step_calls (notifies_none k e nobody) = []
step_calls (wakes i lt a) = []
step_calls (notifies_all k e) = []
step_calls (requests_stop i lt) = []

abbrev pub all_calls : {n : ℕ} {s : System} → Reach n s → List Call
all_calls start = []
all_calls (later r st) = all_calls r ++ step_calls st

-- What the threads were answered, in the order of the critical sections.
abbrev pub waited_answers : Option (Option PriorityTask × Scheduler) → List Answer
waited_answers none = []
waited_answers (some (o, _)) = got o ∷ []

abbrev pub step_answers : {n : ℕ} {s t : System} → Step n s t → List Answer
step_answers {s = s} (pushes func priority) = accepted (push s.scheduler func priority).0 ∷ []
step_answers {s = s} pops = got (try_pop s.scheduler).0 ∷ []
step_answers {s = s} (enters i lt e) = waited_answers (wait_and_pop s.scheduler (s.stop i))
step_answers shuts = done ∷ []
step_answers (calls i o lt e) = []
step_answers (notifies k i e lt a) = []
step_answers (notifies_none k e nobody) = []
step_answers (wakes i lt a) = []
step_answers (notifies_all k e) = []
step_answers (requests_stop i lt) = []

abbrev pub all_answers : {n : ℕ} {s : System} → Reach n s → List Answer
all_answers start = []
all_answers (later r st) = all_answers r ++ step_answers st

run-append :
    (cs : List Call) (c : Call) (s : Scheduler) → run (cs ++ c ∷ []) s ≡ perform c (run cs s)
run-append [] c s = refl
run-append (b ∷ cs) c s = run-append cs c (perform b s)

answers-append :
    (cs : List Call) (c : Call) (s : Scheduler)
    → answers (cs ++ c ∷ []) s ≡ answers cs s ++ (call c (run cs s)).0 ∷ []
answers-append [] c s = refl
answers-append (b ∷ cs) c s =
    let more = answers-append cs c (perform b s) in rw (call-perform b s, more) refl

handed-append :
    (log : List Answer) (a : Answer) → handed (log ++ a ∷ []) ≡ handed log ++ handed_by a
handed-append [] a = append-nil (handed_by a)
handed-append (b ∷ log) a =
    ap (λ l. handed_by b ++ l) (handed-append log a)
    ∙ sym (append_assoc (handed_by b) (handed log) (handed_by a))

-- The calls leave this scheduler, with these answers, which hand out these tasks.
record IsSerial (cs : List Call) (log : List Answer) (p : Scheduler) (taken : List PriorityTask)
    : Type 0 where
  leaves : run cs create ≡ p
  answered : answers cs create ≡ log
  hands : handed log ≡ taken

IsSerial-snoc :
    (c : Call) {cs : List Call} {log : List Answer} {p : Scheduler} {taken : List PriorityTask}
    → IsSerial cs log p taken
    → IsSerial
        (cs ++ c ∷ [])
        (log ++ (call c p).0 ∷ [])
        (perform c p)
        (taken ++ handed_by (call c p).0)
IsSerial-snoc c {cs} {log} {p} h = record {
  leaves = run-append cs c create ∙ ap (perform c) h.leaves;
  answered = answers-append cs c create ∙ ap₂ (λ l q. l ++ (call c q).0 ∷ []) h.answered h.leaves;
  hands = handed-append log (call c p).0 ∙ ap (λ l. l ++ handed_by (call c p).0) h.hands;
}

IsSerial-eq :
    {cs : List Call} {log : List Answer} {p p' : Scheduler} {taken taken' : List PriorityTask}
    → IsSerial cs log p taken
    → p ≡ p'
    → taken ≡ taken'
    → IsSerial cs log p' taken'
IsSerial-eq h f g = record { leaves = h.leaves ∙ f; answered = h.answered; hands = h.hands ∙ g }

-- A step that is no call.
IsSerial-silent :
    {cs : List Call} {log : List Answer} {p : Scheduler} {taken : List PriorityTask}
    → IsSerial cs log p taken
    → IsSerial (cs ++ []) (log ++ []) p taken
IsSerial-silent {cs} {log} h = rw (append-nil cs, append-nil log) h

pushed-scheduler :
    (s : System) (func : ℕ) (priority : TaskPriority)
    → (push s.scheduler func priority).1 ≡ (pushed s func priority).scheduler
unfolding pushed push
pushed-scheduler s func priority = ground arith

pushed-taken :
    (s : System) (func : ℕ) (priority : TaskPriority) → s.taken ≡ (pushed s func priority).taken
unfolding pushed push
pushed-taken s func priority = ground arith

log-handed :
    (o : Option PriorityTask) (taken : List PriorityTask) → taken ++ handed_by (got o) ≡ log o taken
log-handed none taken = append-nil taken
log-handed (some t) taken = refl

entered-IsSerial :
    (s : System) (i : ℕ) {cs : List Call} {log : List Answer}
    → IsSerial cs log s.scheduler s.taken
    → (let o = wait_and_pop s.scheduler (s.stop i) in
        IsSerial
          (cs ++ waited_calls o)
          (log ++ waited_answers o)
          (entered s i o).scheduler
          (entered s i o).taken)
unfolding entered
entered-IsSerial s i h = elim (wait_and_pop-eq-try_pop s.scheduler (s.stop i)) [
  | inl (e, _, _, _) ↦ rw e (IsSerial-silent h)
  | inr e ↦
      rw e (
        IsSerial-eq (IsSerial-snoc History.pops h) refl
          (log-handed (try_pop s.scheduler).0 s.taken))
]

Step-IsSerial :
    {n : ℕ} {s t : System} {cs : List Call} {log : List Answer}
    → IsSerial cs log s.scheduler s.taken
    → (st : Step n s t)
    → IsSerial (cs ++ step_calls st) (log ++ step_answers st) t.scheduler t.taken
unfolding popped
Step-IsSerial {s = s} h (pushes func priority) =
    IsSerial-eq (IsSerial-snoc (History.pushes func priority) h) (pushed-scheduler s func priority)
      (append-nil s.taken ∙ pushed-taken s func priority)
Step-IsSerial {s = s} h pops =
    IsSerial-eq (IsSerial-snoc History.pops h) refl (log-handed (try_pop s.scheduler).0 s.taken)
Step-IsSerial {s = s} h (enters i lt e) = entered-IsSerial s i h
Step-IsSerial {s = s} h shuts =
    IsSerial-eq (IsSerial-snoc History.shuts h) refl (append-nil s.taken)
Step-IsSerial h (calls i o lt e) = IsSerial-silent h
Step-IsSerial h (notifies k i e lt a) = IsSerial-silent h
Step-IsSerial h (notifies_none k e nobody) = IsSerial-silent h
Step-IsSerial h (wakes i lt a) = IsSerial-silent h
Step-IsSerial h (notifies_all k e) = IsSerial-silent h
Step-IsSerial h (requests_stop i lt) = IsSerial-silent h

Reach-IsSerial :
    {n : ℕ} {s : System} (r : Reach n s)
    → IsSerial (all_calls r) (all_answers r) s.scheduler s.taken
unfolding init
Reach-IsSerial start = record { leaves = refl; answered = refl; hands = refl }
Reach-IsSerial (later r st) = Step-IsSerial (Reach-IsSerial r) st

-- In every interleaving the critical sections amount to one sequence of calls of `push`, `try_pop`
-- and `shutdown`, in the order of the critical sections, in which a `wait_and_pop` that returns is
-- one `try_pop` and one that goes to sleep is none: made one after the other on a new scheduler,
-- these calls leave the shared scheduler as it is, they give the answers that the threads got (what
-- a returning `wait_and_pop` gave included), and they hand out the tasks that the consumers were
-- handed, in the same order.
pub Reach-serial :
    {n : ℕ} {s : System} (r : Reach n s)
    → (run (all_calls r) create ≡ s.scheduler)
      × (answers (all_calls r) create ≡ all_answers r)
      × (handed (all_answers r) ≡ s.taken)
Reach-serial r = let h = Reach-IsSerial r in (h.leaves, h.answered, h.hands)
