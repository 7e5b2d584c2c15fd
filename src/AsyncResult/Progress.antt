-- ===== src/AsyncResult/Progress.antt =====
-- include/ate/async_result.hpp: which worker can move while others wait inside continuations.
use async_task_engine.Common.{
  ℕ, zero, suc, ◌<◌, ◌≡◌, refl, ap, ◌∙◌, ◌⊎◌, inl, inr, List, [], ◌∷◌, Option, none, some, length,
  get_elem?, count_below, arith, ℕ_discrete, dec_lt,
}
use async_task_engine.AsyncResult.{Outcome, Callable, plain, continued, get, call, resume}
use async_task_engine.AsyncResult.System.{System, open_yet, finish, Work, starts, finishes}
use async_task_engine.AsyncResult.Means.{Behind, Inv}

abbrev pub Filled : (ℕ → Option Outcome) → ℕ → Type 0
Filled results k = (o : Outcome) × (results k ≡ some o)

Option-cases : (r : Option Outcome) → (r ≡ none) ⊎ ((o : Outcome) × (r ≡ some o))
Option-cases none = inl refl
Option-cases (some o) = inr (o, refl)

-- The first open future below a bound, if there is one.
abbrev pub FirstOpen : (ℕ → Option Outcome) → ℕ → Type 0
FirstOpen results j = (results j ≡ none) × ((i : ℕ) → i < j → Filled results i)

pub first_open :
    (m : ℕ) (results : ℕ → Option Outcome)
    → ((j : ℕ) × (j < m) × FirstOpen results j)
      ⊎ ((count_below open_yet m results ≡ 0) × ((i : ℕ) → i < m → Filled results i))
unfolding count_below
first_open zero results = inr (refl, λ i lt. ground arith)
first_open (suc m) results = elim (first_open m results) [
  | inl (j, lt, h) ↦ inl (j, omega (arith, lt), h)
  | inr (none_open, filled) ↦ elim (Option-cases (results m)) [
    | inl e ↦ inl (m, omega arith, (e, filled))
    | inr (o, e) ↦ inr (
      ground (arith, none_open, e),
      λ i lt. elim (ℕ_discrete i m) [
        | yes here ↦ (o, ap results here ∙ e)
        | no other ↦ filled i (omega (arith, lt, other))
      ],
    )
  ]
]

pub get_elem?-some :
    {A : Type 0} (xs : List A) (k : ℕ) → k < length xs → (x : A) × (get_elem? xs k ≡ some x)
get_elem?-some [] k lt = elim lt [ ]
get_elem?-some (x ∷ xs) zero lt = (x, refl)
get_elem?-some (x ∷ xs) (suc k) lt = get_elem?-some xs k (omega (arith, lt))

-- A task can finish once all before it have.
pub call-Filled :
    (results : ℕ → Option Outcome) (k : ℕ) (c : Callable)
    → Behind k c
    → ((i : ℕ) → i < k → Filled results i)
    → (o : Outcome) × (call results c ≡ some o)
unfolding call get
call-Filled results k (plain b) h f = (b, refl)
call-Filled results k (continued none cont) h f = elim h [ ]
call-Filled results k (continued (some j) cont) h f =
    let (o, e) = f j h in (resume cont o, rw (e, call) refl)

-- As long as a future is open some worker can start a task or finish one.
pub Inv-progress :
    (n : ℕ) (s : System) (k : ℕ)
    → 0 < n
    → Inv s
    → k < length s.engine.tasks
    → s.engine.results k ≡ none
    → (t : System) × Work n s t
Inv-progress n s k workers v lt e = elim (first_open s.started s.engine.results) [
  | inl (j, below, (fresh, filled)) ↦
      let (c, at) = get_elem?-some s.engine.tasks j (omega (arith, below, v.fits)) in
      let (o, r) = call-Filled s.engine.results j c (v.ordered j c at) filled in
      (finish s j o, finishes j c o below fresh at r)
  | inr (none_open, filled) ↦ (
    _,
    starts
        (elim (dec_lt k s.started) [
          | yes past ↦ ground (arith, e, (filled k past).1)
          | no later_on ↦ omega (arith, lt, later_on)
        ])
        (omega (arith, none_open, workers)),
  )
]
