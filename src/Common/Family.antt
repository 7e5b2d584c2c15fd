-- ===== src/Common/Family.antt =====
-- Families `ℕ → A` (the state of each thread, the slots of a buffer) and their update at an index.
use Prim.Native.Nat.{ℕ, zero, suc, ◌+◌, ◌<◌}
use mathlib.Core.Path.{◌≡◌, refl, sym, ◌∙◌}
use mathlib.Core.Option.{Option, some}
use mathlib.Core.Bool.{Bool, true, false}
use mathlib.Core.Logic.{ite, ◌⊎◌, inl, inr}
use native.Mathlib.Decide.{ℕ_discrete}
use native.Mathlib.Omega.{arith}

abbrev pub update {ℓ} : {A : Type ℓ} → (ℕ → A) → ℕ → A → ℕ → A
update f i a j = ite (ℕ_discrete i j) a (f j)

pub update-All {ℓ κ} :
    {A : Type ℓ} (P : A → Type κ) (f : ℕ → A) (i : ℕ) (a : A)
    → P a
    → ((j : ℕ) → P (f j))
    → (j : ℕ) → P (update f i a j)
update-All P f i a p q j = elim (ℕ_discrete i j) as (λ d. P (ite d a (f j))) [
  | yes e ↦ p
  | no ne ↦ q j
]

pub update-cases {ℓ} :
    {A : Type ℓ} (f : ℕ → A) (i : ℕ) (a : A) (j : ℕ)
    → ((i ≡ j) × (update f i a j ≡ a)) ⊎ (update f i a j ≡ f j)
update-cases f i a j =
    elim (ℕ_discrete i j) as (λ d. ((i ≡ j) × (ite d a (f j) ≡ a)) ⊎ (ite d a (f j) ≡ f j)) [
      | yes e ↦ inl (e, refl)
      | no ne ↦ inr refl
    ]

pub update-at {ℓ} : {A : Type ℓ} (f : ℕ → A) (i : ℕ) (a : A) (j : ℕ) → i ≡ j → update f i a j ≡ a
update-at f i a j here = elim (ℕ_discrete i j) as (λ d. ite d a (f j) ≡ a) [
  | yes e ↦ refl
  | no ne ↦ elim (ne here) [ ]
]

pub update-other {ℓ} :
    {A : Type ℓ} (f : ℕ → A) (i : ℕ) (a : A) (j : ℕ) → (i ≡ j → ⊥) → update f i a j ≡ f j
update-other f i a j other = elim (ℕ_discrete i j) as (λ d. ite d a (f j) ≡ f j) [
  | yes e ↦ elim (other e) [ ]
  | no ne ↦ refl
]

-- Where a member of an updated family of options comes from.
pub update-some {ℓ} :
    {A : Type ℓ} (f : ℕ → Option A) (i : ℕ) (o : Option A) (j : ℕ) (a : A)
    → update f i o j ≡ some a
    → ((i ≡ j) × (o ≡ some a)) ⊎ ((i ≡ j → ⊥) × (f j ≡ some a))
update-some f i o j a e = elim (ℕ_discrete i j) [
  | yes here ↦ inl (here, sym (update-at f i o j here) ∙ e)
  | no other ↦ inr (other, sym (update-other f i o j other) ∙ e)
]

abbrev pub weight : Bool → ℕ
weight true = 1
weight false = 0

-- How many of the first `n` members pass a test.
module _ {ℓ} {A : Type ℓ} (test : A → Bool) where
  unfoldable pub count_below : ℕ → (ℕ → A) → ℕ
  count_below zero f = 0
  count_below (suc n) f = weight (test (f n)) + count_below n f

  -- Two families that agree below `n` have one count.
  pub count_below-beyond :
      (f g : ℕ → A) (n : ℕ) → ((k : ℕ) → k < n → f k ≡ g k) → count_below n f ≡ count_below n g
  unfolding count_below
  count_below-beyond f g zero same = refl
  count_below-beyond f g (suc n) same =
      let last = same n (omega arith) in
      let before = count_below-beyond f g n (λ k lt. same k (omega arith)) in rw (last, before)

  -- Changing one member moves the count by the change of that member's weight.
  pub count_below-update :
      (n : ℕ) (f : ℕ → A) (i : ℕ) (a : A)
      → i < n
      → count_below n (update f i a) + weight (test (f i)) ≡ count_below n f + weight (test a)
  unfolding count_below
  count_below-update zero f i a h = elim h [ ]
  count_below-update (suc n) f i a h = elim (ℕ_discrete i n) [
    | no ne ↦ ground (arith, count_below-update n f i a)
    | yes here ↦
        let before = count_below-beyond (update f i a) f n (λ k lt. ground arith) in ground arith
  ]

-- The sum of the weights of the first `n` members.
module _ {ℓ} {A : Type ℓ} (cost : A → ℕ) where
  unfoldable pub sum_below : ℕ → (ℕ → A) → ℕ
  sum_below zero f = 0
  sum_below (suc n) f = cost (f n) + sum_below n f

  sum_below-beyond :
      (f g : ℕ → A) (n : ℕ) → ((k : ℕ) → k < n → f k ≡ g k) → sum_below n f ≡ sum_below n g
  unfolding sum_below
  sum_below-beyond f g zero same = refl
  sum_below-beyond f g (suc n) same =
      let last = same n (omega arith) in
      let before = sum_below-beyond f g n (λ k lt. same k (omega arith)) in rw (last, before)

  pub sum_below-update :
      (n : ℕ) (f : ℕ → A) (i : ℕ) (a : A)
      → i < n
      → sum_below n (update f i a) + cost (f i) ≡ sum_below n f + cost a
  unfolding sum_below
  sum_below-update zero f i a h = elim h [ ]
  sum_below-update (suc n) f i a h = elim (ℕ_discrete i n) [
    | no ne ↦ ground (arith, sum_below-update n f i a)
    | yes here ↦
        let before = sum_below-beyond (update f i a) f n (λ k lt. ground arith) in ground arith
  ]
