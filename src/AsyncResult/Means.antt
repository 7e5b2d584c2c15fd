-- ===== src/AsyncResult/Means.antt =====
-- include/ate/async_result.hpp: the outcome of a task, read off the list of tasks alone.
use async_task_engine.Common.{
  ℕ, zero, suc, ◌≤◌, ◌<◌, ◌≡◌, refl, sym, ap, subst, ◌∙◌, ◌⊎◌, inl, inr, List, [], ◌∷◌, ◌++◌,
  Option, none, some, length, length-append, get_elem?, get_elem?-append_lt, update-cases, arith,
}
use mathlib.Core.Option.{some-injective, none-ne-some}
use async_task_engine.AsyncResult.{
  Outcome, returned, threw, Callable, plain, continued, get, call, resume, submit, then,
}
use async_task_engine.AsyncResult.System.{
  System, finish, starts, finishes, Step, submits, thens, works, Reach, start, later,
}

-- The outcome of a task, from the list of tasks alone.
pub data Means (tasks : List Callable) : ℕ → Outcome → Type 0 where
  of_body : (k : ℕ) (o : Outcome) → get_elem? tasks k ≡ some (plain o) → Means tasks k o
  of_value :
      (k j : ℕ) (cont : ℕ → Outcome) (v : ℕ)
      → get_elem? tasks k ≡ some (continued (some j) cont)
      → Means tasks j (returned v)
      → Means tasks k (cont v)
  of_exception :
      (k j : ℕ) (cont : ℕ → Outcome) (e : ℕ)
      → get_elem? tasks k ≡ some (continued (some j) cont)
      → Means tasks j (threw e)
      → Means tasks k (threw e)

pub get_elem?-lt :
    {A : Type 0} (xs : List A) (k : ℕ) (x : A) → get_elem? xs k ≡ some x → k < length xs
get_elem?-lt [] k x e = ground arith
get_elem?-lt (y ∷ ys) zero x e = omega arith
get_elem?-lt (y ∷ ys) (suc k) x e = omega (arith, get_elem?-lt ys k x e)

pub get_elem?-grow :
    {A : Type 0} (xs ys : List A) (k : ℕ) (x : A)
    → get_elem? xs k ≡ some x
    → get_elem? (xs ++ ys) k ≡ some x
get_elem?-grow xs ys k x e = get_elem?-append_lt xs ys k (get_elem?-lt xs k x e) ∙ e

pub Means-append :
    (tasks more : List Callable) {k : ℕ} {o : Outcome} → Means tasks k o → Means (tasks ++ more) k o
Means-append tasks more (of_body k o e) = of_body k o (get_elem?-grow tasks more k _ e)
Means-append tasks more (of_value k j cont v e m) =
    of_value k j cont v (get_elem?-grow tasks more k _ e) (Means-append tasks more m)
Means-append tasks more (of_exception k j cont x e m) =
    of_exception k j cont x (get_elem?-grow tasks more k _ e) (Means-append tasks more m)

-- Where a continuation stands, or that a task is none.
abbrev pub Behind : ℕ → Callable → Type 0
Behind k (plain o) = Unit {0}
Behind k (continued none cont) = ⊥
Behind k (continued (some j) cont) = j < k

module _ (tasks : List Callable) where
  pub resume-Means :
      (k j : ℕ) (cont : ℕ → Outcome) (o : Outcome)
      → get_elem? tasks k ≡ some (continued (some j) cont)
      → Means tasks j o
      → Means tasks k (resume cont o)
  unfolding resume
  resume-Means k j cont (returned v) e m = of_value k j cont v e m
  resume-Means k j cont (threw x) e m = of_exception k j cont x e m

module _ (tasks : List Callable) (results : ℕ → Option Outcome) where
  resumed-Means :
      (k j : ℕ) (cont : ℕ → Outcome) (r : Option Outcome) (o : Outcome)
      → get_elem? tasks k ≡ some (continued (some j) cont)
      → ((p : Outcome) → r ≡ some p → Means tasks j p)
      → Path
          (Option Outcome)
          (elim r [ none ↦ none | some outcome ↦ some (resume cont outcome) ])
          (some o)
      → Means tasks k o
  resumed-Means k j cont none o e m h = elim (none-ne-some o h) [ ]
  resumed-Means k j cont (some p) o e m h =
      subst (Means tasks k) (some-injective _ _ h) (resume-Means tasks k j cont p e (m p refl))

  call-Means :
      (k : ℕ) (c : Callable) (o : Outcome)
      → Behind k c
      → get_elem? tasks k ≡ some c
      → ((j : ℕ) (p : Outcome) → results j ≡ some p → Means tasks j p)
      → call results c ≡ some o
      → Means tasks k o
  unfolding call get
  call-Means k (plain b) o h e m r = subst (Means tasks k) (some-injective _ _ r) (of_body k b e)
  call-Means k (continued none cont) o h e m r = elim h [ ]
  call-Means k (continued (some j) cont) o h e m r = resumed-Means k j cont (results j) o e (m j) r

-- Continuations stand behind what they continue, and tasks that have not been started hold nothing.
pub record Inv (s : System) : Type 0 where
  pub ordered : (k : ℕ) (c : Callable) → get_elem? s.engine.tasks k ≡ some c → Behind k c
  pub fits : s.started ≤ length s.engine.tasks
  pub unstarted : (k : ℕ) → (k < s.started) ⊎ (s.engine.results k ≡ none)
  pub means : (k : ℕ) (o : Outcome) → s.engine.results k ≡ some o → Means s.engine.tasks k o

pub get_elem?-snoc :
    {A : Type 0} (xs : List A) (y : A) (k : ℕ) (z : A)
    → get_elem? (xs ++ y ∷ []) k ≡ some z
    → (get_elem? xs k ≡ some z) ⊎ ((k ≡ length xs) × (z ≡ y))
get_elem?-snoc [] y zero z e = inr (refl, sym (some-injective _ _ e))
get_elem?-snoc [] y (suc k) z e = inl e
get_elem?-snoc (x ∷ xs) y zero z e = inl e
get_elem?-snoc (x ∷ xs) y (suc k) z e = elim (get_elem?-snoc xs y k z e) [
  | inl old ↦ inl old
  | inr (here, new) ↦ inr (ap suc here, new)
]

-- A new task behind all others.
grown-Inv :
    (s : System) (c : Callable)
    → Behind (length s.engine.tasks) c
    → Inv s
    → Inv (record s { engine = record s.engine { tasks = s.engine.tasks ++ c ∷ [] } })
grown-Inv s c h v = record {
  ordered = λ k d e. elim (get_elem?-snoc s.engine.tasks c k d e) [
    | inl old ↦ v.ordered k d old
    | inr (here, new) ↦ rw (here, new) h
  ];
  fits = omega (arith, v.fits, length-append s.engine.tasks (c ∷ []));
  unstarted = v.unstarted;
  means = λ k o e. Means-append s.engine.tasks (c ∷ []) (v.means k o e);
}

finish-Inv :
    (s : System) (k : ℕ) (c : Callable) (o : Outcome)
    → k < s.started
    → get_elem? s.engine.tasks k ≡ some c
    → call s.engine.results c ≡ some o
    → Inv s
    → Inv (finish s k o)
finish-Inv s k c o lt e r v = record {
  ordered = v.ordered;
  fits = v.fits;
  unstarted = λ j. elim (update-cases s.engine.results k (some o) j) [
    | inl (here, f) ↦ inl (subst (λ i. i < s.started) here lt)
    | inr f ↦ rw f (v.unstarted j)
  ];
  means = λ j p q. elim (update-cases s.engine.results k (some o) j) [
    | inl (here, f) ↦
        let same : o ≡ p = some-injective _ _ (sym f ∙ q) in
        subst (λ i. Means s.engine.tasks i p) here
          (subst (Means s.engine.tasks k) same
            (call-Means s.engine.tasks s.engine.results k c o (v.ordered k c e) e v.means r))
    | inr f ↦ v.means j p (sym f ∙ q)
  ];
}

Step-Inv : {n : ℕ} {s t : System} → Step n s t → Inv s → Inv t
unfolding submit then
Step-Inv {n} {s} (submits o) v = grown-Inv s (plain o) tt v
Step-Inv {n} {s} (thens k cont lt) v = grown-Inv s (continued (some k) cont) lt v
Step-Inv {n} {s} (works (starts lt free)) v = record {
  ordered = v.ordered;
  fits = lt;
  unstarted =
      λ k. elim (v.unstarted k) [ inl past ↦ inl (omega (arith, past)) | inr fresh ↦ inr fresh ];
  means = v.means;
}
Step-Inv {n} {s} (works (finishes k c o lt fresh e r)) v = finish-Inv s k c o lt e r v

pub Reach-Inv : {n : ℕ} {s : System} → Reach n s → Inv s
Reach-Inv start = record {
  ordered = λ k c e. elim (none-ne-some c e) [ ];
  fits = omega arith;
  unstarted = λ k. inr refl;
  means = λ k o e. elim (none-ne-some o e) [ ];
}
Reach-Inv (later r st) = Step-Inv st (Reach-Inv r)
