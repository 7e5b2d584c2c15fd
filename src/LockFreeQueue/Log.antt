-- ===== src/LockFreeQueue/Log.antt =====
-- include/ate/lockfree_queue.hpp: logs of delivered positions and values.
use async_task_engine.Common.{
  ℕ, ◌<◌, ◌≡◌, refl, sym, ◌∙◌, ◌⊎◌, inl, inr, List, [], ◌∷◌, ◌++◌, some, get_elem?, length,
  get_elem?-append_lt,
}

-- The position is in the log.
abbrev pub Has : ℕ → List (ℕ × ℕ) → Type 0
Has p [] = ⊥
Has p ((a, x) ∷ log) = (a ≡ p) ⊎ Has p log

-- Every entry has the value that was pushed at its position.
abbrev pub Faithful : List ℕ → List (ℕ × ℕ) → Type 0
Faithful claimed [] = Unit {0}
Faithful claimed ((a, x) ∷ log) = (get_elem? claimed a ≡ some x) × Faithful claimed log

-- No position stands twice.
abbrev pub Distinct : List (ℕ × ℕ) → Type 0
Distinct [] = Unit {0}
Distinct ((a, x) ∷ log) = (¬ Has a log) × Distinct log

pub Has-append : (p a x : ℕ) (log : List (ℕ × ℕ)) → Has p (log ++ (a, x) ∷ []) → Has p log ⊎ (a ≡ p)
Has-append p a x [] (inl e) = inr e
Has-append p a x [] (inr h) = absurd h
Has-append p a x ((b, y) ∷ log) (inl e) = inl (inl e)
Has-append p a x ((b, y) ∷ log) (inr h) = elim (Has-append p a x log h) [
  | inl g ↦ inl (inr g)
  | inr e ↦ inr e
]

pub append-Has : (p a x : ℕ) (log : List (ℕ × ℕ)) → Has p log ⊎ (a ≡ p) → Has p (log ++ (a, x) ∷ [])
append-Has p a x [] (inl h) = absurd h
append-Has p a x [] (inr e) = inl e
append-Has p a x ((b, y) ∷ log) (inl (inl e)) = inl e
append-Has p a x ((b, y) ∷ log) (inl (inr h)) = inr (append-Has p a x log (inl h))
append-Has p a x ((b, y) ∷ log) (inr e) = inr (append-Has p a x log (inr e))

pub append-Distinct :
    (a x : ℕ) (log : List (ℕ × ℕ)) → ¬ Has a log → Distinct log → Distinct (log ++ (a, x) ∷ [])
append-Distinct a x [] h d = (λ n. n, tt)
append-Distinct a x ((b, y) ∷ log) h d = (
  λ n. elim (Has-append b a x log n) [ inl g ↦ d.0 g | inr e ↦ h (inl (sym e)) ],
  append-Distinct a x log (λ n. h (inr n)) d.1,
)

pub append-Faithful :
    (claimed : List ℕ) (a x : ℕ) (log : List (ℕ × ℕ))
    → get_elem? claimed a ≡ some x
    → Faithful claimed log
    → Faithful claimed (log ++ (a, x) ∷ [])
append-Faithful claimed a x [] e f = (e, tt)
append-Faithful claimed a x ((b, y) ∷ log) e f = (f.0, append-Faithful claimed a x log e f.1)

-- A later claim leaves the values of the earlier positions.
pub Faithful-claim :
    (claimed : List ℕ) (v : ℕ) (log : List (ℕ × ℕ))
    → ((p : ℕ) → Has p log → p < length claimed)
    → Faithful claimed log
    → Faithful (claimed ++ v ∷ []) log
Faithful-claim claimed v [] b f = tt
Faithful-claim claimed v ((a, x) ∷ log) b f = (
  get_elem?-append_lt claimed (v ∷ []) a (b a (inl refl)) ∙ f.0,
  Faithful-claim claimed v log (λ p h. b p (inr h)) f.1,
)
