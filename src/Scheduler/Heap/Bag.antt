-- ===== src/Scheduler/Heap/Bag.antt =====
-- include/ate/scheduler.hpp: the elements of the priority queue as a bag.
use mathlib.Core.List.{Perm, Mem, mem-cons_self, eq-or-mem_of_mem-cons, not-mem-nil}
use mathlib.Core.List.Perm
use mathlib.Core.Logic.{∥∥₁_elim}
use async_task_engine.Common.{
  ◌≡◌, sym, ap, inl, inr, true, false, Bool, List, [], ◌∷◌, arith, subst,
}
use async_task_engine.Scheduler.{PriorityTask, to_int, less}
use async_task_engine.Scheduler.Order.{Before, Before-less, to_int-injective}
use async_task_engine.Scheduler.Top.{All, All-mono}

-- Two tasks with the same fields.
abbrev Same : PriorityTask → PriorityTask → Type 0
Same a b = (a.func ≡ b.func) × (to_int a.priority ≡ to_int b.priority) × (a.sequence ≡ b.sequence)

Same-ext : (a b : PriorityTask) → Same a b → a ≡ b
Same-ext a b (f, p, s) =
    let r = to_int-injective a.priority b.priority p in
    λ i. record { func = f i; priority = r i; sequence = s i }

-- A test that all elements pass is passed by a member.
All-Mem {ℓ} :
    {A : Type ℓ} (test : A → Bool) (b : Bool) {a : A} (xs : List A)
    → Mem a xs
    → All (λ x. test x ≡ b) xs
    → test a ≡ b
All-Mem test b [] m h = elim (not-mem-nil m) [ ]
All-Mem test b (x ∷ xs) m h =
    ∥∥₁_elim (eq-or-mem_of_mem-cons m) (hlevel) (λ o. elim o [
      | inl e ↦ subst (λ y. test y ≡ b) (sym e) h.0
      | inr n ↦ All-Mem test b xs n h.1
    ])

-- The greatest of a bag does not depend on the order in which the bag is listed.
pub greatest_unique :
    (a b : PriorityTask) (xs ys : List PriorityTask)
    → Perm (a ∷ xs) (b ∷ ys)
    → All (Before a) xs
    → All (λ u. less b u ≡ false) ys
    → a ≡ b
greatest_unique a b xs ys p first top =
    let same : a ≡ b → Same a b =
      λ e. (ap (λ t. t.func) e, ap (λ t. to_int t.priority) e, ap (λ t. t.sequence) e) in
    Same-ext a b (
      ∥∥₁_elim (eq-or-mem_of_mem-cons (Perm.subset p a mem-cons_self)) (hlevel) (λ o. elim o [
        | inl e ↦ same e
        | inr behind ↦
            ∥∥₁_elim (eq-or-mem_of_mem-cons (Perm.subset (Perm.symm p) b mem-cons_self)) (hlevel)
              (λ o'. elim o' [
                | inl e ↦ same (sym e)
                | inr later ↦
                    let up =
                      All-Mem (λ u. less u a) true xs later
                        (All-mono (λ u h. Before-less u a h) xs first) in
                    let down = All-Mem (less b) false ys behind top in
                    let bad : ⊥ = ground (arith, up, down) in elim bad [ ]
              ])
      ]))
