-- ===== src/AsyncResult/Chains.antt =====
-- include/ate/async_result.hpp: chains of `then` and what their last result holds.
use mathlib.Core.Option.{some-injective}
use async_task_engine.Common.{
  ℕ, ◌<◌, ◌≡◌, ◌≢◌, refl, sym, ap, subst, ◌∙◌, List, [], ◌∷◌, ◌++◌, append-nil, append_assoc,
  Option, some, length, get_elem?, get_elem?-append_length, arith,
}
use async_task_engine.AsyncResult.{
  Outcome, returned, threw, Callable, plain, continued, Engine, AsyncResult, resume, submit, then,
}
use async_task_engine.AsyncResult.System.{System, Reach}
use async_task_engine.AsyncResult.Means.{
  Means, of_body, of_value, of_exception, Reach-Inv, resume-Means, get_elem?-grow, get_elem?-lt,
}

-- Task `l` is the last of a chain of continuations of task `k`.
abbrev pub Chained : List Callable → ℕ → List (ℕ → Outcome) → ℕ → Type 0
Chained tasks k [] l = k ≡ l
Chained tasks k (f ∷ fs) l =
    (j : ℕ) × (get_elem? tasks j ≡ some (continued (some k) f)) × Chained tasks j fs l

-- The functions applied one after the other to an outcome, up to the first that throws.
abbrev pub compose : Outcome → List (ℕ → Outcome) → Outcome
compose o [] = o
compose (threw exception) (f ∷ fs) = threw exception
compose (returned value) (f ∷ fs) = compose (f value) fs

compose-threw : (x : ℕ) (fs : List (ℕ → Outcome)) → compose (threw x) fs ≡ threw x
compose-threw x [] = refl
compose-threw x (f ∷ fs) = refl

compose-resume :
    (o : Outcome) (f : ℕ → Outcome) (fs : List (ℕ → Outcome))
    → compose (resume f o) fs ≡ compose o (f ∷ fs)
unfolding resume
compose-resume (returned v) f fs = refl
compose-resume (threw x) f fs = compose-threw x fs

continued-injective :
    (i j : ℕ) (f g : ℕ → Outcome) → continued (some i) f ≡ continued (some j) g → (i ≡ j) × (f ≡ g)
continued-injective i j f g e = ground arith

plain-ne-continued : (o : Outcome) (k : Option ℕ) (f : ℕ → Outcome) → plain o ≢ continued k f
plain-ne-continued o k f e = ground arith

module _ (tasks : List Callable) where
  continued-Means :
      (k j : ℕ) (cont : ℕ → Outcome) (o : Outcome)
      → Means tasks k o
      → get_elem? tasks k ≡ some (continued (some j) cont)
      → (p : Outcome) × Means tasks j p × (o ≡ resume cont p)
  unfolding resume
  continued-Means _ j cont _ (of_body k o e) e' =
      elim (plain-ne-continued o (some j) cont (some-injective _ _ (sym e ∙ e'))) [ ]
  continued-Means _ j cont _ (of_value k i cont' v e m) e' =
      let (here, same) = continued-injective i j cont' cont (some-injective _ _ (sym e ∙ e')) in
      (returned v, subst (λ n. Means tasks n (returned v)) here m, ap (λ f. f v) same)
  continued-Means _ j cont _ (of_exception k i cont' x e m) e' =
      let (here, same) = continued-injective i j cont' cont (some-injective _ _ (sym e ∙ e')) in
      (threw x, subst (λ n. Means tasks n (threw x)) here m, refl)

  plain-Means :
      (k : ℕ) (o p : Outcome) → Means tasks k p → get_elem? tasks k ≡ some (plain o) → o ≡ p
  plain-Means _ o _ (of_body k p e) e' = ground (arith, e, e')
  plain-Means _ o _ (of_value k j cont v e m) e' =
      elim (plain-ne-continued o (some j) cont (some-injective _ _ (sym e' ∙ e))) [ ]
  plain-Means _ o _ (of_exception k j cont x e m) e' =
      elim (plain-ne-continued o (some j) cont (some-injective _ _ (sym e' ∙ e))) [ ]

  Means-unique : (k : ℕ) (o p : Outcome) → Means tasks k o → Means tasks k p → o ≡ p
  unfolding resume
  Means-unique _ _ p (of_body k o e) m = plain-Means k o p m e
  Means-unique _ _ p (of_value k j cont v e m) n =
      let (q, m', same) = continued-Means k j cont p n e in
      ap (resume cont) (Means-unique j (returned v) q m m') ∙ sym same
  Means-unique _ _ p (of_exception k j cont x e m) n =
      let (q, m', same) = continued-Means k j cont p n e in
      ap (resume cont) (Means-unique j (threw x) q m m') ∙ sym same

  Chained-Means :
      (k l : ℕ) (fs : List (ℕ → Outcome)) (o : Outcome)
      → Means tasks k o
      → Chained tasks k fs l
      → Means tasks l (compose o fs)
  Chained-Means k l [] o m e = subst (λ i. Means tasks i o) e m
  Chained-Means k l (f ∷ fs) o m (j, e, rest) =
      subst (Means tasks l) (compose-resume o f fs)
        (Chained-Means j l fs (resume f o) (resume-Means tasks j k f o e m) rest)

-- If a future and the last of a chain of `then` on it are both filled, the last one holds what the
-- continuations make of the first, one after the other, up to the first exception, which passes
-- through all that follow.
pub Chained-outcome :
    {n : ℕ} {s : System} (k l : ℕ) (fs : List (ℕ → Outcome)) (o p : Outcome)
    → Reach n s
    → Chained s.engine.tasks k fs l
    → s.engine.results k ≡ some o
    → s.engine.results l ≡ some p
    → p ≡ compose o fs
Chained-outcome {s = s} k l fs o p r c e e' =
    let v = Reach-Inv r in
    Means-unique s.engine.tasks l p (compose o fs) (v.means l p e')
      (Chained-Means s.engine.tasks k l fs o (v.means k o e) c)

-- A future of a task of the user holds the outcome of its body.
pub body-outcome :
    {n : ℕ} {s : System} (k : ℕ) (o p : Outcome)
    → Reach n s
    → get_elem? s.engine.tasks k ≡ some (plain o)
    → s.engine.results k ≡ some p
    → o ≡ p
body-outcome {s = s} k o p r e e' =
    let v = Reach-Inv r in plain-Means s.engine.tasks k o p (v.means k p e') e

pub Chained-lt :
    (tasks : List Callable) (k l : ℕ) (fs : List (ℕ → Outcome)) (c : Callable)
    → get_elem? tasks k ≡ some c
    → Chained tasks k fs l
    → (k < length tasks) × (l < length tasks)
Chained-lt tasks k l [] c at e = let lt = get_elem?-lt tasks k c at in (lt, omega (arith, lt, e))
Chained-lt tasks k l (f ∷ fs) c at (j, e, rest) =
    (get_elem?-lt tasks k c at, (Chained-lt tasks j l fs (continued (some k) f) e rest).1)

-- `then` for each of a list of continuations.
unfoldable pub then_all : Engine → AsyncResult → List (ℕ → Outcome) → AsyncResult × Engine
unfolding then
then_all e r [] = (r, e)
then_all e r (f ∷ fs) = let (next, gone, e') = then e r f in then_all e' next fs

Chained-append :
    (tasks more : List Callable) (k l : ℕ) (fs : List (ℕ → Outcome))
    → Chained tasks k fs l
    → Chained (tasks ++ more) k fs l
Chained-append tasks more k l [] e = e
Chained-append tasks more k l (f ∷ fs) (j, e, rest) =
    (j, get_elem?-grow tasks more j _ e, Chained-append tasks more j l fs rest)

then_all-extends :
    (e : Engine) (r : AsyncResult) (fs : List (ℕ → Outcome))
    → (more : List Callable) × ((then_all e r fs).1.tasks ≡ e.tasks ++ more)
unfolding then_all submit then
then_all-extends e r [] = ([], sym (append-nil e.tasks))
then_all-extends e r (f ∷ fs) =
    let c = continued r.future f in
    let (more, same) = then_all-extends (then e r f).2 (then e r f).0 fs in
    (c ∷ more, same ∙ append_assoc e.tasks (c ∷ []) more)

-- Continuing a result with each of a list of functions gives the result of the last of a chain.
pub then_all-Chained :
    (e : Engine) (k : ℕ) (fs : List (ℕ → Outcome))
    → (let (r, e') = then_all e (record { future = some k }) fs in
        (l : ℕ) × (r.future ≡ some l) × Chained e'.tasks k fs l)
unfolding then_all submit then
then_all-Chained e k [] = (k, refl, refl)
then_all-Chained e k (f ∷ fs) =
    let (next, gone, e') = then e (record { future = some k }) f in
    let (l, last, chain) = then_all-Chained e' (length e.tasks) fs in
    let (more, same) = then_all-extends e' next fs in
    (
      l,
      last,
      (
        length e.tasks,
        ap (λ xs. get_elem? xs (length e.tasks)) same
            ∙ get_elem?-grow e'.tasks more (length e.tasks) _ (get_elem?-append_length e.tasks _),
        chain,
      ),
    )
