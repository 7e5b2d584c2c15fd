-- ===== src/Scheduler/Sorted.antt =====
-- include/ate/scheduler.hpp: the tasks that repeated calls of `try_pop` hand out.
use mathlib.Core.List.{Perm}
use mathlib.Core.List.Perm
use async_task_engine.Common.{
  ℕ, zero, suc, ◌≤◌, ◌≡◌, refl, sym, ap, inl, inr, List, [], ◌∷◌, none, some, length, arith, subst,
  Bool-cases, List-cases,
}
use async_task_engine.Scheduler.{PriorityTask, less, Scheduler, take_top, pop_top, try_pop}
use async_task_engine.Scheduler.Order.{Before}
use async_task_engine.Scheduler.Top.{
  All, Distinct, Ordered, take_top-All, take_top-perm, take_top-Distinct, take_top-Before,
  take_top-lt, take_top-ge, take_top-nil,
}

-- All that up to `n` calls of `try_pop` in a row hand out.
unfoldable pub drain : ℕ → Scheduler → List PriorityTask
drain zero s = []
drain (suc n) s = let (o, s') = try_pop s in elim o [ none ↦ [] | some t ↦ t ∷ drain n s' ]

drain-zero : (s : Scheduler) → drain 0 s ≡ []
unfolding drain
drain-zero s = refl

pub try_pop-nil : (s : Scheduler) → s.queue ≡ [] → try_pop s ≡ (none, s)
unfolding try_pop pop_top
try_pop-nil s e = simp e refl

pub try_pop-cons :
    (s : Scheduler) (t : PriorityTask) (ts : List PriorityTask)
    → s.queue ≡ t ∷ ts
    → try_pop s ≡ (some (take_top t ts).0, record s { queue = (take_top t ts).1 })
unfolding try_pop pop_top
try_pop-cons s t ts e = simp e refl

drain-nil : (n : ℕ) (s : Scheduler) → s.queue ≡ [] → drain n s ≡ []
unfolding drain
drain-nil zero s e = refl
drain-nil (suc n) s e = rw (try_pop-nil s e, drain) refl

drain-cons :
    (n : ℕ) (s : Scheduler) (t : PriorityTask) (ts : List PriorityTask)
    → s.queue ≡ t ∷ ts
    → drain (suc n) s ≡ (take_top t ts).0 ∷ drain n (record s { queue = (take_top t ts).1 })
unfolding drain
drain-cons n s t ts e = rw (try_pop-cons s t ts e, drain) (rw (try_pop-cons s t ts e) refl)

pub take_top-length :
    (t : PriorityTask) (ts : List PriorityTask) → length (take_top t ts).1 ≡ length ts
take_top-length t [] = simp (take_top-nil t) refl
take_top-length t (u ∷ us) = elim (Bool-cases (less t u)) [
  | inl lt ↦ simp (take_top-lt t u us lt, take_top-length u us) refl
  | inr ge ↦ simp (take_top-ge t u us ge, take_top-length t us) refl
]

drain-All : (P : PriorityTask → Type 0) (n : ℕ) (s : Scheduler) → All P s.queue → All P (drain n s)
drain-All P zero s h = subst (All P) (sym (drain-zero s)) tt
drain-All P (suc n) s h = elim (List-cases s.queue) [
  | inl e ↦ subst (All P) (sym (drain-nil (suc n) s e)) tt
  | inr (t, ts, e) ↦
      let all : All P (t ∷ ts) = subst (All P) e h in
      let (first, others) = take_top-All P t ts all.0 all.1 in
      subst (All P) (sym (drain-cons n s t ts e))
        (first, drain-All P n (record s { queue = (take_top t ts).1 }) others)
]

-- If no two queued tasks have one sequence number, repeated calls of `try_pop`, one for each task,
-- hand out every queued task exactly once, each one before all that it is to be served before.
pub drain-Ordered :
    (n : ℕ) (s : Scheduler)
    → Distinct s.queue
    → length s.queue ≤ n
    → Perm s.queue (drain n s) × Ordered (drain n s)
drain-Ordered zero s d fits = elim (List-cases s.queue) [
  | inl e ↦ subst (λ l. Perm s.queue l × Ordered l) (sym (drain-zero s)) (rw e (Perm.refl []), tt)
  | inr (t, ts, e) ↦ elim (subst (λ l. length l ≤ 0) e fits) [ ]
]
drain-Ordered (suc n) s d fits = elim (List-cases s.queue) [
  | inl e ↦
      subst (λ l. Perm s.queue l × Ordered l) (sym (drain-nil (suc n) s e))
        (rw e (Perm.refl []), tt)
  | inr (t, ts, e) ↦
      let rest = (take_top t ts).1 in
      let apart : Distinct (t ∷ ts) = subst Distinct e d in
      let (same, sorted) =
        drain-Ordered n (record s { queue = rest }) (take_top-Distinct t ts apart).1
          (omega (arith, take_top-length t ts, ap length e)) in
      subst (λ l. Perm s.queue l × Ordered l) (sym (drain-cons n s t ts e))
        (
          rw e (Perm.trans (take_top-perm t ts) (Perm.cons (take_top t ts).0 same)),
          (
            drain-All (Before (take_top t ts).0) n (record s { queue = rest })
                (take_top-Before t ts apart),
            sorted,
          ),
        )
]
