-- ===== src/Scheduler/Pushes.antt =====
-- include/ate/scheduler.hpp: the tasks of a history of calls, numbered by their pushes.
use mathlib.Core.List.{Perm, perm_middle}
use mathlib.Core.List.Perm
use async_task_engine.Common.{
  ℕ, suc, ◌+◌, ◌^◌, ◌<◌, ◌≡◌, refl, sym, ap₂, subst, ◌%◌, inl, inr, Bool, true, false, List, [],
  ◌∷◌, ◌++◌, Option, none, some, length, arith, append-nil, List-cases,
}
use async_task_engine.Scheduler.{
  TaskPriority, PriorityTask, Scheduler, create, push, pop_top, try_pop, shutdown,
}
use async_task_engine.Scheduler.Top.{Ordered, take_top-perm}
use async_task_engine.Scheduler.Sorted.{drain, drain-Ordered, try_pop-nil, try_pop-cons}
use async_task_engine.Scheduler.History.{
  Call, pushes, pops, shuts, run, run-IsNumbered, create-IsNumbered, create-next_seq,
  pop_top-next_seq,
}
use async_task_engine.Scheduler.Heap.{Answer, popped, answers, handed}

-- What is left, with what is handed out.
abbrev pub back : Option PriorityTask → List PriorityTask → List PriorityTask
back none ts = ts
back (some t) ts = t ∷ ts

pub try_pop-perm : (s : Scheduler) → Perm s.queue (back (try_pop s).0 (try_pop s).1.queue)
try_pop-perm s = elim (List-cases s.queue) [
  | inl e ↦ rw (try_pop-nil s e) (Perm.refl s.queue)
  | inr (t, ts, e) ↦ rw (try_pop-cons s t ts e, e) (take_top-perm t ts)
]

-- The tasks that the calls push, each with its number: the pushes are counted from `n`, and those
-- after a shutdown do not count.
abbrev pub numbered : ℕ → Bool → List Call → List PriorityTask
numbered n stopped [] = []
numbered n true (pushes func priority ∷ cs) = numbered n true cs
numbered n false (pushes func priority ∷ cs) =
    record { func = func; priority = priority; sequence = n } ∷ numbered (suc n) false cs
numbered n stopped (pops ∷ cs) = numbered n stopped cs
numbered n stopped (shuts ∷ cs) = numbered n true cs

pop_top-stopped : (s : Scheduler) (ts : List PriorityTask) → (pop_top s ts).1.stopped ≡ s.stopped
unfolding pop_top
pop_top-stopped s [] = refl
pop_top-stopped s (t ∷ ts) = refl

-- What the calls find queued and what they push is handed out or left.
IsExact : List Call → Scheduler → Type 0
IsExact cs s =
    Perm (s.queue ++ numbered s.next_seq s.stopped cs) (handed (answers cs s) ++ (run cs s).queue)

back-handed :
    (o : Option PriorityTask) (log : List Answer) (left : List PriorityTask)
    → back o (handed log ++ left) ≡ handed (popped o ∷ log) ++ left
back-handed none log left = refl
back-handed (some t) log left = refl

pops-IsExact :
    (queue rest final : List PriorityTask) (o : Option PriorityTask) (left : List PriorityTask)
    → Perm queue (back o left)
    → Perm (left ++ rest) final
    → Perm (queue ++ rest) (back o final)
pops-IsExact queue rest final none left p h = Perm.trans (Perm.append_right rest p) h
pops-IsExact queue rest final (some t) left p h =
    Perm.trans (Perm.append_right rest p) (Perm.cons t h)

push-IsExact :
    (func : ℕ) (priority : TaskPriority) (cs : List Call) (queue : List PriorityTask) (n : ℕ)
    (stopped : Bool)
    → n + suc (length cs) < 2 ^ 64
    → ((s : Scheduler) → s.next_seq + length cs < 2 ^ 64 → IsExact cs s)
    → IsExact
        (pushes func priority ∷ cs)
        (record { queue = queue; next_seq = n; stopped = stopped })
unfolding IsExact push
push-IsExact func priority cs queue n true few h =
    h (record { queue = queue; next_seq = n; stopped = true }) (omega (arith, few))
push-IsExact func priority cs queue n false few h =
    let t : PriorityTask = record { func = func; priority = priority; sequence = n } in
    let next : (n + 1) % 2 ^ 64 ≡ suc n = omega (arith, few) in
    let left : List PriorityTask → ℕ → List PriorityTask = λ q m.
      (let s : Scheduler = record { queue = q; next_seq = m; stopped = false } in
        handed (answers cs s) ++ (run cs s).queue) in
    subst (λ m. Perm (queue ++ t ∷ numbered (suc n) false cs) (left (t ∷ queue) m)) (sym next)
      (Perm.trans (perm_middle queue (numbered (suc n) false cs))
        (h (record { queue = t ∷ queue; next_seq = suc n; stopped = false }) (omega (arith, few))))

retag :
    (cs : List Call) {n m : ℕ} {b c : Bool} (queue final : List PriorityTask)
    → n ≡ m
    → b ≡ c
    → Perm (queue ++ numbered n b cs) final
    → Perm (queue ++ numbered m c cs) final
retag cs queue final e f h =
    subst (λ l. Perm (queue ++ l) final) (ap₂ (λ n b. numbered n b cs) e f) h

calls-IsExact : (cs : List Call) (s : Scheduler) → s.next_seq + length cs < 2 ^ 64 → IsExact cs s
unfolding IsExact shutdown try_pop
calls-IsExact [] s few = rw (append-nil s.queue) (Perm.refl s.queue)
calls-IsExact (pushes func priority ∷ cs) s few =
    push-IsExact func priority cs s.queue s.next_seq s.stopped few (calls-IsExact cs)
calls-IsExact (pops ∷ cs) s few =
    let same : (try_pop s).1.next_seq ≡ s.next_seq = pop_top-next_seq s s.queue in
    let stop : (try_pop s).1.stopped ≡ s.stopped = pop_top-stopped s s.queue in
    let h = calls-IsExact cs (try_pop s).1 (omega (arith, few, same)) in
    subst (Perm (s.queue ++ numbered s.next_seq s.stopped cs))
      (back-handed (try_pop s).0 (answers cs (try_pop s).1) (run cs (try_pop s).1).queue)
      (pops-IsExact s.queue (numbered s.next_seq s.stopped cs)
        (handed (answers cs (try_pop s).1) ++ (run cs (try_pop s).1).queue) (try_pop s).0
        (try_pop s).1.queue (try_pop-perm s) (retag cs _ _ same stop h))
calls-IsExact (shuts ∷ cs) s few = calls-IsExact cs (shutdown s) (omega (arith, few))

create-IsExact :
    (cs : List Call)
    → length cs < 2 ^ 64
    → Perm (numbered 0 false cs) (handed (answers cs create) ++ (run cs create).queue)
unfolding IsExact create
create-IsExact cs few = calls-IsExact cs create (omega (arith, few))

-- After fewer than 2^64 calls of `push`, `try_pop` and `shutdown` in any order, further calls of
-- `try_pop` hand out every queued task exactly once, each one before all that have a lower
-- priority and before all of its own priority that were pushed later: with what the `try_pop`s among
-- the calls handed out, these are the tasks of the pushes before the first shutdown, each once, the
-- `n`-th of these pushes with the sequence number `n`, and by these numbers ties are decided.
pub run-Ordered :
    (cs : List Call)
    → length cs < 2 ^ 64
    → (let s = run cs create in
        let out = drain (length s.queue) s in
        Perm s.queue out
        × Ordered out
        × Perm (numbered 0 false cs) (handed (answers cs create) ++ out))
run-Ordered cs few =
    let s = run cs create in
    let (same, ordered) =
      drain-Ordered (length s.queue) s
        (run-IsNumbered cs create (omega (arith, few, create-next_seq)) create-IsNumbered).distinct
        (omega arith) in
    (
      same,
      ordered,
      Perm.trans (create-IsExact cs few) (Perm.append_left (handed (answers cs create)) same),
    )
