-- ===== src/AsioContext/Ends.antt =====
-- include/ate/asio_context.hpp: the destructor, once every pool task takes its turns.
use async_task_engine.Common.{
  ℕ, zero, suc, ◌+◌, ◌≤◌, ◌<◌, ◌≡◌, refl, sym, ap, subst, ◌∙◌, inl, inr, Bool, true, false, Option,
  none, some, ℕ_discrete, update-at, arith, Bool-cases, ltb,
}
use mathlib.Core.Bool.{true≢false}
use async_task_engine.AsioContext.{
  IoContext, IoTask, queued, inside_run, run_returned, Destructor, not_called, awaiting, destroyed,
  is_ready, AsioContext, io_turn, destroy,
}
use async_task_engine.AsioContext.State.{status_at, Reach, Inv}
use async_task_engine.AsioContext.Turns.{Goes, Turned, io_turn-Turned}
use async_task_engine.AsioContext.Once.{Reach-Inv}
use async_task_engine.AsioContext.Threads.{joined, is_called, Reach-Joined, Goes-ready, Turned-task}

abbrev is_begun : IoTask → Bool
is_begun queued = false
is_begun t = true

module _ {Io : Type 0} (ctx : IoContext Io) where
  -- Each of the first `m` pool tasks takes two turns.
  unfoldable pub two_turns : ℕ → AsioContext ctx → Option (AsioContext ctx)
  two_turns zero a = some a
  two_turns (suc m) a = elim (two_turns m a) [
    | none ↦ none
    | some b ↦ elim (io_turn ctx b m) [ none ↦ none | some c ↦ io_turn ctx c m ]
  ]

  -- The destructor takes `k` turns.
  unfoldable pub destroy_turns : ℕ → AsioContext ctx → AsioContext ctx
  destroy_turns zero a = a
  destroy_turns (suc k) a = destroy_turns k (destroy ctx a a.destructor)

  called_stopped : (d : Destructor) → is_called d ≡ true → (status_at d).stopped ≡ true
  called_stopped not_called e = elim (true≢false (sym e)) [ ]
  called_stopped (awaiting next) e = refl
  called_stopped destroyed e = refl

  Goes-begun : (a : AsioContext ctx) (old t : IoTask) → Goes ctx a old t → is_begun t ≡ true
  Goes-begun a queued t g = ap is_begun g
  Goes-begun a inside_run t (inl (g, h)) = ap is_begun g
  Goes-begun a inside_run t (inr (g, h)) = ap is_begun g
  Goes-begun a run_returned t g = ap is_begun g

  -- A task inside `run` of a stopped context returns.
  Goes-leaves :
      (a : AsioContext ctx) (old t : IoTask)
      → Inv ctx a
      → is_called a.destructor ≡ true
      → is_begun old ≡ true
      → Goes ctx a old t
      → is_ready t ≡ true
  unfolding is_ready
  Goes-leaves a queued t v off e g = elim (true≢false (sym e)) [ ]
  Goes-leaves a inside_run t v off e (inr (g, h)) = ap is_ready g
  Goes-leaves a inside_run t v off e (inl (g, h)) =
      let stopped = ap (λ s. s.stopped) v.stage ∙ called_stopped a.destructor off in
      elim (true≢false
        (sym (ctx.finished-stopped a.io_ctx stopped) ∙ h (ctx.poll-stopped a.io_ctx stopped))) [ ]
  Goes-leaves a run_returned t v off e g = ap is_ready g

  record Left (m : ℕ) (a b : AsioContext ctx) : Type 0 where
    kept : Inv ctx b
    threads : b.io_threads ≡ a.io_threads
    same_destructor : b.destructor ≡ a.destructor
    left_ready : (i : ℕ) → i < m → is_ready (b.io_futures i) ≡ true

  two_turns-suc :
      (m : ℕ) (a b c d : AsioContext ctx)
      → two_turns m a ≡ some b
      → io_turn ctx b m ≡ some c
      → io_turn ctx c m ≡ some d
      → two_turns (suc m) a ≡ some d
  unfolding two_turns
  two_turns-suc m a b c d e f g = rw (e, two_turns) (rw f g)

  Turned-ready :
      (a b : AsioContext ctx) (i j : ℕ)
      → Turned ctx a i b
      → is_ready (a.io_futures j) ≡ true
      → is_ready (b.io_futures j) ≡ true
  Turned-ready a b i j t old =
      Turned-task ctx (λ u. is_ready u ≡ true) a b i j t
        (λ here.
          Goes-ready ctx a (a.io_futures i) t.task t.goes
            (ap (λ k. is_ready (a.io_futures k)) here ∙ old))
        old

  two_turns-Left :
      (m : ℕ) (a : AsioContext ctx)
      → Inv ctx a
      → is_called a.destructor ≡ true
      → (b : AsioContext ctx) × (two_turns m a ≡ some b) × Left m a b
  unfolding two_turns
  two_turns-Left zero a v on = (
    a,
    refl,
    record { kept = v; threads = refl; same_destructor = refl; left_ready = λ i lt. ground arith },
  )
  two_turns-Left (suc m) a v on =
      let (b, e, x) = two_turns-Left m a v on in
      let (c, f, t) = io_turn-Turned ctx b m x.kept in
      let (d, g, u) = io_turn-Turned ctx c m t.kept in
      let called = ap is_called (t.same_destructor ∙ x.same_destructor) ∙ on in
      let begun : is_begun (c.io_futures m) ≡ true =
        ap is_begun (ap (λ f. f m) t.futures ∙ update-at b.io_futures m t.task m refl)
        ∙ Goes-begun b (b.io_futures m) t.task t.goes in
      let left : is_ready (d.io_futures m) ≡ true =
        ap is_ready (ap (λ f. f m) u.futures ∙ update-at c.io_futures m u.task m refl)
        ∙ Goes-leaves c (c.io_futures m) u.task t.kept called begun u.goes in
      (
        d,
        two_turns-suc m a b c d e f g,
        record {
          kept = u.kept;
          threads = u.threads ∙ t.threads ∙ x.threads;
          same_destructor = u.same_destructor ∙ t.same_destructor ∙ x.same_destructor;
          left_ready = λ i lt. elim (ℕ_discrete m i) [
            | yes here ↦ ap (λ k. is_ready (d.io_futures k)) (sym here) ∙ left
            | no other ↦
                Turned-ready c d m i u
                  (Turned-ready b c m i t (x.left_ready i (omega (arith, lt, other))))
          ];
        },
      )

  destroyed-stays :
      (k : ℕ) (a : AsioContext ctx)
      → a.destructor ≡ destroyed
      → (destroy_turns k a).destructor ≡ destroyed
  unfolding destroy_turns destroy
  destroyed-stays zero a e = e
  destroyed-stays (suc k) a e =
      ap (λ d. (destroy_turns k (destroy ctx a d)).destructor) e ∙ destroyed-stays k a e

  -- The futures are ready: each turn waits for one of them.
  destroy_turns-ends :
      (k : ℕ) (a : AsioContext ctx) (next : ℕ)
      → a.destructor ≡ awaiting next
      → next ≤ a.io_threads
      → a.io_threads < k + next
      → ((i : ℕ) → i < a.io_threads → is_ready (a.io_futures i) ≡ true)
      → (destroy_turns k a).destructor ≡ destroyed
  unfolding destroy_turns destroy
  destroy_turns-ends zero a next e le few ready =
      let bad : ⊥ = omega (arith, le, few) in elim bad [ ]
  destroy_turns-ends (suc k) a next e le few ready =
      ap (λ d. (destroy_turns k (destroy ctx a d)).destructor) e
      ∙ elim (Bool-cases (ltb next a.io_threads)) [
        | inl more ↦ rw more (
            rw (ready next (ground arith)) (
              destroy_turns-ends k (record a { destructor = awaiting (suc next) }) (suc next) refl
                (ground arith) (omega (arith, few)) ready))
        | inr over ↦ rw over (destroyed-stays k _ refl)
      ]

  called-ends :
      (k : ℕ) (a : AsioContext ctx) (d : Destructor)
      → a.destructor ≡ d
      → is_called d ≡ true
      → joined d a.io_threads ≤ a.io_threads
      → a.io_threads < k
      → ((i : ℕ) → i < a.io_threads → is_ready (a.io_futures i) ≡ true)
      → (destroy_turns k a).destructor ≡ destroyed
  called-ends k a not_called e on le few ready = elim (true≢false (sym on)) [ ]
  called-ends k a (awaiting next) e on le few ready =
      destroy_turns-ends k a next e le (omega (arith, few)) ready
  called-ends k a destroyed e on le few ready = destroyed-stays k a e

  -- The destructor ends: whatever happened before, once it has been called two turns of each of the
  -- `n` pool tasks, in which no exception leaves `run`, and `n + 1` turns of the destructor bring it
  -- to its end. (A turn of a pool task that is still queued is that a worker starts it.)
  pub destroy-Ends :
      {n : ℕ} (a : AsioContext ctx)
      → Reach ctx n a
      → is_called a.destructor ≡ true
      → (b : AsioContext ctx) × (two_turns n a ≡ some b)
        × ((destroy_turns (suc n) b).destructor ≡ destroyed)
  destroy-Ends {n} a r on =
      let (b, e, x) = two_turns-Left n a (Reach-Inv ctx r) on in
      let j = Reach-Joined ctx r in
      let same = x.threads ∙ j.size in
      (
        b,
        e,
        called-ends (suc n) b b.destructor refl (ap is_called x.same_destructor ∙ on)
            (subst (λ k. joined b.destructor k ≤ k) (sym same)
              (subst (λ d. joined d n ≤ n) (sym x.same_destructor) j.bounded))
            (omega (arith, same)) (λ i lt. x.left_ready i (omega (arith, lt, same))),
      )
