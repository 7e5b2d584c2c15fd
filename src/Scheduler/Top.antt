-- ===== src/Scheduler/Top.antt =====
-- include/ate/scheduler.hpp: what `top` and `pop` of the priority queue leave and take out.
use mathlib.Core.List.{Perm}
use mathlib.Core.List.Perm
use async_task_engine.Common.{
  ◌≡◌, ◌≢◌, refl, sym, ◌⊎◌, inl, inr, true, false, List, [], ◌∷◌, arith, subst, Bool-cases,
}
use async_task_engine.Scheduler.{PriorityTask, less, take_top}
use async_task_engine.Scheduler.Order.{Before, less-Before, Before-total}

abbrev pub All {ℓ κ} : {A : Type ℓ} → (A → Type κ) → List A → Type κ
All P [] = Unit
All P (x ∷ xs) = P x × All P xs

-- No two tasks have one sequence number.
abbrev pub Distinct : List PriorityTask → Type 0
Distinct [] = Unit {0}
Distinct (t ∷ ts) = All (λ u. t.sequence ≢ u.sequence) ts × Distinct ts

-- Each task is served before all that follow it.
abbrev pub Ordered : List PriorityTask → Type 0
Ordered [] = Unit {0}
Ordered (t ∷ ts) = All (Before t) ts × Ordered ts

pub All-mono {ℓ κ} :
    {A : Type ℓ} {P Q : A → Type κ} → ((a : A) → P a → Q a) → (xs : List A) → All P xs → All Q xs
All-mono f [] h = tt
All-mono f (x ∷ xs) h = (f x h.0, All-mono f xs h.1)

pub take_top-All :
    (P : PriorityTask → Type 0) (t : PriorityTask) (ts : List PriorityTask)
    → P t
    → All P ts
    → P (take_top t ts).0 × All P (take_top t ts).1
unfolding take_top
take_top-All P t [] p h = (p, tt)
take_top-All P t (u ∷ us) p h = elim (Bool-cases (less t u)) [
  | inl lt ↦ rw lt (let (a, b) = take_top-All P u us h.0 h.1 in (a, (p, b)))
  | inr ge ↦ rw ge (let (a, b) = take_top-All P t us p h.1 in (a, (h.0, b)))
]

pub take_top-perm :
    (t : PriorityTask) (ts : List PriorityTask)
    → Perm (t ∷ ts) ((take_top t ts).0 ∷ (take_top t ts).1)
unfolding take_top
take_top-perm t [] = Perm.refl (t ∷ [])
take_top-perm t (u ∷ us) = elim (Bool-cases (less t u)) [
  | inl lt ↦ rw lt (
      Perm.trans (Perm.cons t (take_top-perm u us))
        (Perm.swap (take_top u us).0 t (take_top u us).1))
  | inr ge ↦ rw ge (
      Perm.trans (Perm.swap u t us) (
        Perm.trans (Perm.cons u (take_top-perm t us))
          (Perm.swap (take_top t us).0 u (take_top t us).1)))
]

Before-trans : (a b c : PriorityTask) → Before a b → Before b c → Before a c
Before-trans a b c h k = ground arith

pub take_top-nil : (t : PriorityTask) → take_top t [] ≡ (t, [])
unfolding take_top
take_top-nil t = refl

pub take_top-lt :
    (t u : PriorityTask) (us : List PriorityTask)
    → less t u ≡ true
    → take_top t (u ∷ us) ≡ ((take_top u us).0, t ∷ (take_top u us).1)
unfolding take_top
take_top-lt t u us lt = rw lt refl

pub take_top-ge :
    (t u : PriorityTask) (us : List PriorityTask)
    → less t u ≡ false
    → take_top t (u ∷ us) ≡ ((take_top t us).0, u ∷ (take_top t us).1)
unfolding take_top
take_top-ge t u us ge = rw ge refl

pub take_top-Distinct :
    (t : PriorityTask) (ts : List PriorityTask)
    → Distinct (t ∷ ts)
    → Distinct ((take_top t ts).0 ∷ (take_top t ts).1)
take_top-Distinct t [] d = subst (λ r. Distinct (r.0 ∷ r.1)) (sym (take_top-nil t)) d
take_top-Distinct t (u ∷ us) d = elim (Bool-cases (less t u)) [
  | inl lt ↦
      let (apart, others) = take_top-All (λ x. t.sequence ≢ x.sequence) u us d.0.0 d.0.1 in
      let ih = take_top-Distinct u us d.1 in
      subst (λ r. Distinct (r.0 ∷ r.1)) (sym (take_top-lt t u us lt))
        (((λ e. apart (sym e)), ih.0), (others, ih.1))
  | inr ge ↦
      let (apart, others) =
        take_top-All (λ x. u.sequence ≢ x.sequence) t us (λ e. d.0.0 (sym e)) d.1.0 in
      let ih = take_top-Distinct t us (d.0.1, d.1.1) in
      subst (λ r. Distinct (r.0 ∷ r.1)) (sym (take_top-ge t u us ge))
        (((λ e. apart (sym e)), ih.0), (others, ih.1))
]

beats : (best w l : PriorityTask) → (best ≡ w) ⊎ Before best w → Before w l → Before best l
beats best w l (inl e) h = rw e h
beats best w l (inr b) h = Before-trans best w l b h

-- What `top` is against the element in hand.
take_top-head :
    (t : PriorityTask) (ts : List PriorityTask)
    → Distinct (t ∷ ts)
    → ((take_top t ts).0 ≡ t) ⊎ Before (take_top t ts).0 t
unfolding take_top
take_top-head t [] d = inl refl
take_top-head t (u ∷ us) d = elim (Bool-cases (less t u)) [
  | inl lt ↦ rw lt (inr (beats (take_top u us).0 u t (take_top-head u us d.1) (less-Before t u lt)))
  | inr ge ↦ rw ge (take_top-head t us (d.0.1, d.1.1))
]

-- With distinct sequence numbers the top is served before everything else.
pub take_top-Before :
    (t : PriorityTask) (ts : List PriorityTask)
    → Distinct (t ∷ ts)
    → All (Before (take_top t ts).0) (take_top t ts).1
take_top-Before t [] d = subst (λ r. All (Before r.0) r.1) (sym (take_top-nil t)) tt
take_top-Before t (u ∷ us) d = elim (Bool-cases (less t u)) [
  | inl lt ↦
      subst (λ r. All (Before r.0) r.1) (sym (take_top-lt t u us lt))
        (
          beats (take_top u us).0 u t (take_top-head u us d.1) (less-Before t u lt),
          take_top-Before u us d.1,
        )
  | inr ge ↦
      let kept : Distinct (t ∷ us) = (d.0.1, d.1.1) in
      subst (λ r. All (Before r.0) r.1) (sym (take_top-ge t u us ge))
        (
          beats (take_top t us).0 t u (take_top-head t us kept) (Before-total t u d.0.0 ge),
          take_top-Before t us kept,
        )
]
