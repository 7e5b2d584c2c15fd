-- ===== src/Execution/Links.antt =====
-- include/ate/thread_pool.hpp: the workers that are inside a task, and the futures that are open.
use async_task_engine.Common.{
  ℕ, zero, suc, ◌<◌, ◌≤◌, ◌≡◌, refl, sym, ap, ◌∙◌, inl, inr, Bool, true, false, Option, none, some,
  update, update-at, update-other, update-some, ℕ_discrete, arith, count_below, count_below-beyond,
  count_below-update, weight,
}
use mathlib.Core.Option.{some-injective, none-ne-some}
use async_task_engine.AsyncResult.{Outcome, returned}
use async_task_engine.AsyncResult.Progress.{Filled, first_open}
use async_task_engine.AsyncResult.System.{open_yet}

abbrev pub inside : Option ℕ → Bool
inside none = false
inside (some k) = true

-- `inside_of i` is the task that worker `i` is inside, `st` how many tasks were started.
pub record Linked (n : ℕ) (inside_of : ℕ → Option ℕ) (st : ℕ) (results : ℕ → Option Outcome)
    : Type 0 where
  pub doing : (i k : ℕ) → inside_of i ≡ some k → (k < st) × (results k ≡ none)
  pub apart : (i j k : ℕ) → inside_of i ≡ some k → inside_of j ≡ some k → i ≡ j
  pub balance : count_below inside n inside_of ≡ count_below open_yet st results
  pub fresh : (k : ℕ) → st ≤ k → results k ≡ none
  pub held : (k : ℕ) → k < st → results k ≡ none → (i : ℕ) × (i < n) × (inside_of i ≡ some k)

pub count_below-none : (n : ℕ) → count_below inside n (λ i. none) ≡ 0
unfolding count_below
count_below-none zero = refl
count_below-none (suc n) = ground (arith, count_below-none n)

pub Linked-same :
    (n : ℕ) (f g : ℕ → Option ℕ) (st : ℕ) (results : ℕ → Option Outcome)
    → ((i : ℕ) → g i ≡ f i)
    → Linked n f st results
    → Linked n g st results
Linked-same n f g st results same v = record {
  doing = λ i k e. v.doing i k (sym (same i) ∙ e);
  apart = λ i j k e e'. v.apart i j k (sym (same i) ∙ e) (sym (same j) ∙ e');
  balance = count_below-beyond inside g f n (λ i lt. same i) ∙ v.balance;
  fresh = v.fresh;
  held = λ k lt e. let (i, small, f) = v.held k lt e in (i, small, same i ∙ f);
}

count_below-le : {A : Type 0} (test : A → Bool) (n : ℕ) (f : ℕ → A) → count_below test n f ≤ n
unfolding count_below
count_below-le test zero f = omega arith
count_below-le test (suc n) f = ground (arith, count_below-le test n f)

-- A worker that is inside no task leaves room for one more.
pub Linked-room :
    (n : ℕ) (f : ℕ → Option ℕ) (st : ℕ) (results : ℕ → Option Outcome) (i : ℕ)
    → i < n
    → f i ≡ none
    → Linked n f st results
    → count_below open_yet st results < n
Linked-room n f st results i lt e v =
    let moved = count_below-update inside n f i (some 0) lt in
    let idle = ap (λ o. weight (inside o)) e in
    omega (arith, moved, idle, v.balance, count_below-le inside n (update f i (some 0)))

pub Linked-start :
    (n : ℕ) (f : ℕ → Option ℕ) (st : ℕ) (results : ℕ → Option Outcome) (i : ℕ)
    → i < n
    → f i ≡ none
    → Linked n f st results
    → Linked n (update f i (some st)) (suc st) results
unfolding count_below
Linked-start n f st results i lt e v =
    let young : (j k : ℕ) → f j ≡ some k → st ≡ k → ⊥ =
      λ j k g same. omega (arith, (v.doing j k g).0, same) in
    record {
      doing = λ j k h. elim (ℕ_discrete i j) [
        | yes here ↦
            let same = some-injective _ _ (sym (update-at f i (some st) j here) ∙ h) in
            (omega (arith, same), v.fresh k (omega (arith, same)))
        | no other ↦
            let (lt', open_k) = v.doing j k (sym (update-other f i (some st) j other) ∙ h) in
            (omega (arith, lt'), open_k)
      ];
      apart = λ j j' k h h'. elim (update-some f i (some st) j k h) [
        | inl (here, g) ↦ elim (update-some f i (some st) j' k h') [
          | inl (here', g') ↦ sym here ∙ here'
          | inr (other', g') ↦ elim (young j' k g' (some-injective _ _ g)) [ ]
        ]
        | inr (other, g) ↦ elim (update-some f i (some st) j' k h') [
          | inl (here', g') ↦ elim (young j k g (some-injective _ _ g')) [ ]
          | inr (other', g') ↦ v.apart j j' k g g'
        ]
      ];
      balance =
          let moved = count_below-update inside n f i (some st) lt in
          let idle = ap (λ o. weight (inside o)) e in
          let one = ap (λ o. weight (open_yet o)) (v.fresh st (omega arith)) in
          omega (arith, moved, idle, one, v.balance);
      fresh = λ k le. v.fresh k (omega (arith, le));
      held = λ k small open_k. elim (ℕ_discrete k st) [
        | yes here ↦ (i, lt, update-at f i (some st) i refl ∙ ap some (sym here))
        | no other ↦
            let (j, below, g) = v.held k (omega (arith, small, other)) open_k in
            (
              j,
              below,
              update-other f i (some st) j (λ same. none-ne-some k (sym e ∙ ap f same ∙ g)) ∙ g,
            )
      ];
    }

pub Linked-finish :
    (n : ℕ) (f : ℕ → Option ℕ) (st : ℕ) (results : ℕ → Option Outcome) (i k : ℕ) (o : Outcome)
    → i < n
    → f i ≡ some k
    → Linked n f st results
    → Linked n (update f i none) st (update results k (some o))
Linked-finish n f st results i k o lt e v =
    let (early, open_k) = v.doing i k e in
    let left : (j m : ℕ) → update f i none j ≡ some m → (i ≡ j → ⊥) × (f j ≡ some m) = λ j m h.
      elim (update-some f i none j m h) [
        | inl (here, g) ↦ elim (none-ne-some m g) [ ]
        | inr rest ↦ rest
      ] in
    record {
      doing = λ j m h.
          let (other, g) = left j m h in
          let (before, open_m) = v.doing j m g in
          (
            before,
            update-other results k (some o) m (λ same. other (v.apart i j m (e ∙ ap some same) g))
                ∙ open_m,
          );
      apart = λ j j' m h h'. v.apart j j' m (left j m h).1 (left j' m h').1;
      balance =
          let moved = count_below-update inside n f i none lt in
          let busy = ap (λ p. weight (inside p)) e in
          let filled = count_below-update open_yet st results k (some o) early in
          let was = ap (λ p. weight (open_yet p)) open_k in
          omega (arith, moved, busy, filled, was, v.balance);
      fresh = λ m le.
          update-other results k (some o) m (λ same. omega (arith, same, le, early)) ∙ v.fresh m le;
      held = λ m small open_m. elim (ℕ_discrete k m) [
        | yes here ↦ elim (none-ne-some o (sym open_m ∙ update-at results k (some o) m here)) [ ]
        | no other ↦
            let (j, below, g) =
              v.held m small (sym (update-other results k (some o) m other) ∙ open_m) in
            (
              j,
              below,
              update-other f i none j (λ same. other (some-injective _ _ (sym e ∙ ap f same ∙ g)))
                  ∙ g,
            )
      ];
    }

-- If no future is open, each holds an outcome.
pub count_below-open :
    (m : ℕ) (results : ℕ → Option Outcome) (k : ℕ)
    → count_below open_yet m results ≡ 0
    → k < m
    → Filled results k
count_below-open m results k e lt = elim (first_open m results) [
  | inl (j, small, (h, before)) ↦
      let moved = count_below-update open_yet m results j (some (returned 0)) small in
      let was = ap (λ o. weight (open_yet o)) h in
      let bad : ⊥ = omega (arith, moved, was, e) in elim bad [ ]
  | inr (none_open, filled) ↦ filled k lt
]
