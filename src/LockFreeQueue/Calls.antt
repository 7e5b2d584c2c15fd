-- ===== src/LockFreeQueue/Calls.antt =====
-- include/ate/lockfree_queue.hpp: lists of calls by one thread on a new queue.
use async_task_engine.Common.{
  ℕ, ◌+◌, ◌*◌, ◌^◌, ◌≤◌, ◌<◌, ◌≡◌, refl, sym, ap, ◌∙◌, Bool, List, [], ◌∷◌, map, Option, none, some,
  length, arith,
}
use async_task_engine.LockFreeQueue.{Shape, Ring, create, Pc}
use async_task_engine.LockFreeQueue.Capacity.{IsLayout}
use async_task_engine.LockFreeQueue.System.{System, start, init}
use async_task_engine.LockFreeQueue.Sequential.{Call, begin, operate, Suffices, reference}
use async_task_engine.LockFreeQueue.Agreement.{Rests, call-Answers}

-- Call after call, each with flags for its steps: `none` if one does not return.
unfoldable pub run_calls : Shape → List (Call × List Bool) → Ring → Option (List Pc × Ring)
run_calls q [] r = some ([], r)
run_calls q ((c, flags) ∷ cs) r = elim (operate q flags r (begin c)) [
  | none ↦ none
  | some (answer, r') ↦ elim (run_calls q cs r') [
    | none ↦ none
    | some (answers, r'') ↦ some (answer ∷ answers, r'')
  ]
]

-- Each call has six steps, and two more for each flag that is set among them.
abbrev pub AllSuffice : List (Call × List Bool) → Type 0
AllSuffice [] = Unit
AllSuffice ((c, flags) ∷ cs) = Suffices 6 flags × AllSuffice cs

abbrev pub calls_of : List (Call × List Bool) → List Call
calls_of = map (λ c. c.0)

-- The answers of a list of at most `capacity` elements.
abbrev pub reference_answers : ℕ → List Call → List ℕ → List Pc
reference_answers capacity [] xs = []
reference_answers capacity (c ∷ cs) xs =
    let (answer, ys) = reference capacity c xs in answer ∷ reference_answers capacity cs ys

run_calls-cons :
    (q : Shape) (c : Call) (flags : List Bool) (cs : List (Call × List Bool)) (r r' r'' : Ring)
    (answer : Pc) (answers : List Pc)
    → operate q flags r (begin c) ≡ some (answer, r')
    → run_calls q cs r' ≡ some (answers, r'')
    → run_calls q ((c, flags) ∷ cs) r ≡ some (answer ∷ answers, r'')
unfolding run_calls
run_calls-cons q c flags cs r r' r'' answer answers e f = rw (e, run_calls) (rw f refl)

module _ (q : Shape) (lay : IsLayout q) (roomy : q.capacity ≤ 2 ^ 62) where
  run_calls-Rests :
      (cs : List (Call × List Bool)) {k : ℕ} {s : System} {xs : List ℕ}
      → Rests q k s xs
      → AllSuffice cs
      → k + 7 * length cs < 2 ^ 62
      → (r : Ring) × (run_calls q cs s.ring
          ≡ some (reference_answers q.capacity (calls_of cs) xs, r))
  unfolding run_calls
  run_calls-Rests [] {s = s} v enough few = (s.ring, refl)
  run_calls-Rests ((c, flags) ∷ cs) {s = s} {xs = xs} v enough few =
      let (r, done, m, e, t, same, v') = call-Answers q v lay roomy (omega arith) c in
      let (r', rest) = run_calls-Rests cs v' enough.1 (omega (arith, e, few)) in
      (
        r',
        run_calls-cons q c flags cs s.ring r r' (reference q.capacity c xs).0 _
            (done flags enough.0) (ap (run_calls q cs) (sym same) ∙ rest),
      )

  init-Rests : Rests q 0 (init q) []
  unfolding create
  init-Rests = record { reach = start; idles = λ i. refl; holds = refl }

  -- A thread that has the queue for itself gets from each call of `try_push` and `try_pop` an
  -- answer within six steps and two more for each time that its weak exchange fails for no reason,
  -- and the answers are those of a list of at most `capacity` elements: a push is refused exactly
  -- when the list is full, and a pop returns the front or, if there is none, nothing.
  -- (Capacity at most 2 ^ 62, 7 times the number of calls fewer than 2 ^ 62.)
  pub run_calls-reference :
      (cs : List (Call × List Bool))
      → AllSuffice cs
      → 7 * length cs < 2 ^ 62
      → (r : Ring) × (run_calls q cs (create q.capacity)
          ≡ some (reference_answers q.capacity (calls_of cs) [], r))
  run_calls-reference cs enough few = run_calls-Rests cs init-Rests enough (omega arith)
