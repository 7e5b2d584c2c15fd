-- ===== src/Scheduler/Heap/Agree.antt =====
-- include/ate/scheduler.hpp: the scheduler over two layouts of one priority queue.
use mathlib.Core.List.{Perm}
use mathlib.Core.List.Perm
use async_task_engine.Common.{
  ℕ, ◌+◌, ◌%◌, ◌^◌, ◌<◌, ◌≤◌, ◌≡◌, refl, sym, ap, ap₂, subst, ◌∙◌, inl, inr, List, [], ◌∷◌, Option,
  none, some, length, arith, Bool-cases,
}
use async_task_engine.Scheduler.{
  TaskPriority, PriorityTask, Scheduler, create, push, try_pop, shutdown,
}
use async_task_engine.Scheduler.Drain.{IsNumbered, Pops, try_pop-Pops}
use async_task_engine.Scheduler.History.{
  Call, pushes, pops, shuts, perform, perform-next_seq, perform-IsNumbered, create-IsNumbered,
  create-next_seq, pop_top-next_seq,
}
use async_task_engine.Scheduler.Heap.{
  Tops, PriorityQueue, Answer, popped, call, answers, Hidden, hidden_create, hidden_pop,
  hidden_call, hidden_answers,
}
use async_task_engine.Scheduler.Heap.Bag.{greatest_unique}

pub call-perform : (c : Call) (s : Scheduler) → (call c s).1 ≡ perform c s
call-perform (pushes func priority) s = refl
call-perform pops s = refl
call-perform shuts s = refl

cons-Perm_nil : (t : PriorityTask) (ts : List PriorityTask) → Perm (t ∷ ts) [] → ⊥
cons-Perm_nil t ts p = omega (arith, ap length (Perm.eq-nil p))

call-next_seq :
    (c : Call) (s : Scheduler) → s.next_seq + 1 < 2 ^ 64 → (call c s).1.next_seq ≤ s.next_seq + 1
call-next_seq c s few = rw (call-perform c s) (perform-next_seq c s few)

call-IsNumbered :
    (c : Call) (s : Scheduler) → s.next_seq + 1 < 2 ^ 64 → IsNumbered s → IsNumbered (call c s).1
call-IsNumbered c s few v = rw (call-perform c s) (perform-IsNumbered c s few v)

try_pop-next_seq : (s : Scheduler) → (try_pop s).1.next_seq ≡ s.next_seq
unfolding try_pop
try_pop-next_seq s = pop_top-next_seq s s.queue

module _ (q : PriorityQueue) where
  -- The two queues hold the same tasks, in whatever order each keeps them.
  record Alike (s : Scheduler) (h : Hidden q) : Type 0 where
    tasks : Perm s.queue (q.items h.heap)
    count : s.next_seq ≡ h.next_seq
    stop : s.stopped ≡ h.stopped

  -- Two calls answer the same and leave the same tasks.
  Matches : Answer × Scheduler → Answer × Hidden q → Type 0
  Matches (a, s) (b, h) = (a ≡ b) × Alike s h

  hidden_pop-Matches :
      (s : Scheduler) (h : Hidden q) (r : Option PriorityTask × Scheduler)
      (o : Option (PriorityTask × q.Layout))
      → Alike s h
      → Pops s r
      → r.1.next_seq ≡ s.next_seq
      → Tops q.items (q.items h.heap) o
      → Matches (popped r.0, r.1) (hidden_pop q h o)
  unfolding Matches
  hidden_pop-Matches s h (none, s') none a p n t = (refl, subst (λ x. Alike x h) (sym p.1) a)
  hidden_pop-Matches s h (none, s') (some (u, g)) a p n t =
      elim (cons-Perm_nil u (q.items g)
        (subst (Perm (u ∷ q.items g)) p.0 (Perm.trans (Perm.symm t.0) (Perm.symm a.tasks)))) [ ]
  hidden_pop-Matches s h (some x, s') none a p n t =
      elim (cons-Perm_nil x s'.queue
        (subst (Perm (x ∷ s'.queue)) t (Perm.trans (Perm.symm p.0) a.tasks))) [ ]
  hidden_pop-Matches s h (some x, s') (some (u, g)) a p n t =
      let both = Perm.trans (Perm.symm p.0) (Perm.trans a.tasks t.0) in
      let e = greatest_unique x u s'.queue (q.items g) both p.1 t.1 in
      (
        ap (λ y. popped (some y)) e,
        record {
          tasks = Perm.cons_inv (subst (λ y. Perm (x ∷ s'.queue) (y ∷ q.items g)) (sym e) both);
          count = n ∙ a.count;
          stop = p.3 ∙ a.stop;
        },
      )

  push-Matches :
      (func : ℕ) (priority : TaskPriority) (s : Scheduler) (h : Hidden q)
      → Alike s h
      → Matches (call (pushes func priority) s) (hidden_call q (pushes func priority) h)
  unfolding Matches push
  push-Matches func priority s h a = elim (Bool-cases s.stopped) [
    | inl shut ↦ simp (shut, sym a.stop ∙ shut) (refl, a)
    | inr up ↦
        let new : ℕ → PriorityTask =
          λ n. record { func = func; priority = priority; sequence = n } in
        simp (up, sym a.stop ∙ up)
          (
            refl,
            record {
              tasks = Perm.trans (Perm.cons (new s.next_seq) a.tasks) (
                  subst
                    (λ n.
                      Perm (new n ∷ q.items h.heap) (q.items (q.insert (new h.next_seq) h.heap)))
                    (sym a.count) (Perm.symm (q.items-insert (new h.next_seq) h.heap)));
              count = ap (λ n. (n + 1) % 2 ^ 64) a.count;
              stop = refl;
            },
          )
  ]

  call-Matches :
      (c : Call) (s : Scheduler) (h : Hidden q)
      → Alike s h
      → IsNumbered s
      → Matches (call c s) (hidden_call q c h)
  unfolding Matches shutdown
  call-Matches (pushes func priority) s h a v = push-Matches func priority s h a
  call-Matches pops s h a v =
      hidden_pop-Matches s h (try_pop s) (q.take h.heap) a (try_pop-Pops s v) (try_pop-next_seq s)
        (q.take-Tops h.heap)
  call-Matches shuts s h a v = (refl, record { tasks = a.tasks; count = a.count; stop = refl })

  create-Alike : Alike create (hidden_create q)
  unfolding create
  create-Alike = record {
    tasks = subst (Perm []) (sym q.items-nothing) (Perm.refl []);
    count = refl;
    stop = refl;
  }

  answers-Alike :
      (cs : List Call) (s : Scheduler) (h : Hidden q)
      → s.next_seq + length cs < 2 ^ 64
      → IsNumbered s
      → Alike s h
      → answers cs s ≡ hidden_answers q cs h
  unfolding Matches
  answers-Alike [] s h few v a = refl
  answers-Alike (c ∷ cs) s h few v a =
      let (e, b) = call-Matches c s h a v in
      ap₂ ◌∷◌ e (
        answers-Alike cs (call c s).1 (hidden_call q c h).1
          (omega (arith, few, call-next_seq c s (omega (arith, few))))
          (call-IsNumbered c s (omega (arith, few)) v) b)

-- The answers of any calls of `push`, `try_pop` and `shutdown`, fewer than 2^64, are those of the
-- same calls on a scheduler whose priority queue keeps its elements in any other layout and breaks
-- ties in any other way, as long as `push` adds the element, `top` is one that no other exceeds and
-- `pop` removes that one.
pub answers-hidden_answers :
    (q : PriorityQueue) (cs : List Call)
    → length cs < 2 ^ 64
    → answers cs create ≡ hidden_answers q cs (hidden_create q)
answers-hidden_answers q cs few =
    answers-Alike q cs create (hidden_create q) (omega (arith, few, create-next_seq))
      create-IsNumbered (create-Alike q)
