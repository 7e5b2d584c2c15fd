-- ===== src/Scheduler/Heap/Tests.antt =====
-- include/ate/scheduler.hpp: a layout of the queue that is searched from the far end, and a run on it.
use mathlib.Core.List.Perm
use async_task_engine.Common.{
  ◌≡◌, refl, true, false, inl, inr, List, [], ◌∷◌, Option, none, some, arith, Bool-cases,
  if◌then◌else◌,
}
use async_task_engine.Scheduler.{PriorityTask, normal, critical, create, less}
use async_task_engine.Scheduler.History.{Call, pushes, pops, shuts}
use async_task_engine.Scheduler.Top.{All-mono}
use async_task_engine.Scheduler.Heap.{
  Tops, PriorityQueue, Answer, accepted, popped, done, answers, hidden_create, hidden_answers,
}
use async_task_engine.Scheduler.Heap.Agree.{answers-hidden_answers}

abbrev Found : Type 0
Found = Option (PriorityTask × List PriorityTask)

abbrev against : PriorityTask → Found → Found
against t none = some (t, [])
against t (some (u, us)) = if less u t then some (t, u ∷ us) else some (u, t ∷ us)

abbrev search_back : List PriorityTask → Found
search_back [] = none
search_back (t ∷ ts) = against t (search_back ts)

less-below : (t u x : PriorityTask) → less u x ≡ false → less u t ≡ true → less t x ≡ false
unfolding less
less-below t u x h k = ground arith

less-asym : (t u : PriorityTask) → less u t ≡ true → less t u ≡ false
unfolding less
less-asym t u h = ground arith

against-Tops :
    (t : PriorityTask) (ts : List PriorityTask) (o : Found)
    → Tops (λ l. l) ts o
    → Tops (λ l. l) (t ∷ ts) (against t o)
against-Tops t ts none e = (rw e (Perm.refl (t ∷ [])), tt)
against-Tops t ts (some (u, us)) (p, h) = elim (Bool-cases (less u t)) [
  | inl lt ↦ rw lt (Perm.cons t p, (less-asym t u lt, All-mono (λ x k. less-below t u x k lt) us h))
  | inr ge ↦ rw ge (Perm.trans (Perm.cons t p) (Perm.swap u t us), (ge, h))
]

search_back-Tops : (ts : List PriorityTask) → Tops (λ l. l) ts (search_back ts)
search_back-Tops [] = refl
search_back-Tops (t ∷ ts) = against-Tops t ts (search_back ts) (search_back-Tops ts)

abbrev backwards : PriorityQueue
backwards = record {
  Layout = List PriorityTask;
  items = λ l. l;
  nothing = [];
  insert = λ t l. t ∷ l;
  take = search_back;
  items-nothing = refl;
  items-insert = λ t l. Perm.refl (t ∷ l);
  take-Tops = search_back-Tops;
}

abbrev calls : List Call
calls =
    pushes 7 normal
    ∷ pushes 8 critical
    ∷ pushes 9 normal
    ∷ pops
    ∷ shuts
    ∷ pushes 5 normal
    ∷ pops
    ∷ []

abbrev expected : List Answer
expected =
    accepted true
    ∷ accepted true
    ∷ accepted true
    ∷ popped (some (record { func = 8; priority = critical; sequence = 1 }))
    ∷ done
    ∷ accepted false
    ∷ popped (some (record { func = 7; priority = normal; sequence = 0 }))
    ∷ []

backwards-run : hidden_answers backwards calls (hidden_create backwards) ≡ expected
unfolding less
backwards-run = refl

answers-hidden_answers_example :
    answers calls create ≡ hidden_answers backwards calls (hidden_create backwards)
answers-hidden_answers_example = answers-hidden_answers backwards calls (omega arith)
