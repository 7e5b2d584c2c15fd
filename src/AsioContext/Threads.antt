-- ===== src/AsioContext/Threads.antt =====
-- include/ate/asio_context.hpp: the pool tasks inside `run` and the destructor.
use async_task_engine.Common.{
  ℕ, ◌≤◌, ◌<◌, ◌≡◌, refl, sym, ap, subst, ◌∙◌, inl, inr, Bool, true, false, update-at, update-other,
  ℕ_discrete, arith, Bool-cases, ltb,
}
use mathlib.Core.Bool.{true≢false}
use async_task_engine.AsioContext.{
  IoContext, IoTask, queued, inside_run, run_returned, Destructor, not_called, awaiting, destroyed,
  is_ready, AsioContext, create, post, async_after, await_suspend, destroy,
}
use async_task_engine.AsioContext.State.{
  status_at, Step, posts, waits, delays, runs, destroys, Reach, start, later, Inv,
}
use async_task_engine.AsioContext.Turns.{Goes, Turned, io_turn-some}
use async_task_engine.AsioContext.Once.{Reach-Inv}

-- The futures that the destructor has waited for.
abbrev pub joined : Destructor → ℕ → ℕ
joined not_called n = 0
joined (awaiting next) n = next
joined destroyed n = n

abbrev pub is_called : Destructor → Bool
is_called not_called = false
is_called d = true

module _ {Io : Type 0} (ctx : IoContext Io) where
  pub record Joined (n : ℕ) (a : AsioContext ctx) : Type 0 where
    pub size : a.io_threads ≡ n
    pub bounded : joined a.destructor n ≤ n
    pub serving : is_called a.destructor ≡ false → (i : ℕ) → is_ready (a.io_futures i) ≡ false
    pub waited : (i : ℕ) → i < joined a.destructor n → is_ready (a.io_futures i) ≡ true

  pub Goes-ready :
      (a : AsioContext ctx) (old t : IoTask)
      → Goes ctx a old t
      → is_ready old ≡ true
      → is_ready t ≡ true
  unfolding is_ready
  Goes-ready a queued t g e = ground arith
  Goes-ready a inside_run t g e = ground arith
  Goes-ready a run_returned t g e = ap is_ready g

  Goes-serving :
      (a : AsioContext ctx) (old t : IoTask)
      → ctx.finished a.io_ctx ≡ false
      → Goes ctx a old t
      → is_ready old ≡ false
      → is_ready t ≡ false
  unfolding is_ready
  Goes-serving a queued t on g e = ap is_ready g
  Goes-serving a inside_run t on (inl (g, h)) e = ap is_ready g
  Goes-serving a inside_run t on (inr (g, over)) e = elim (true≢false (sym over ∙ on)) [ ]
  Goes-serving a run_returned t on g e = ground arith

  serving-finished :
      (a : AsioContext ctx) (d : Destructor)
      → a.destructor ≡ d
      → Inv ctx a
      → is_called d ≡ false
      → ctx.finished a.io_ctx ≡ false
  serving-finished a not_called e v off = ctx.finished-guarded a.io_ctx (v.stage ∙ ap status_at e)
  serving-finished a (awaiting next) e v off = elim (true≢false off) [ ]
  serving-finished a destroyed e v off = elim (true≢false off) [ ]

  -- The turn of a task leaves each of the others where it stands.
  pub Turned-task :
      (P : IoTask → Type 0) (a b : AsioContext ctx) (i j : ℕ)
      → (t : Turned ctx a i b) → (i ≡ j → P t.task)
      → P (a.io_futures j)
      → P (b.io_futures j)
  Turned-task P a b i j t moved old = elim (ℕ_discrete i j) [
    | yes here ↦
        subst P (sym (ap (λ f. f j) t.futures ∙ update-at a.io_futures i t.task j here))
          (moved here)
    | no other ↦
        subst P (sym (ap (λ f. f j) t.futures ∙ update-other a.io_futures i t.task j other)) old
  ]

  Turned-Joined :
      {n : ℕ} (a b : AsioContext ctx) (i : ℕ)
      → Turned ctx a i b
      → Inv ctx a
      → Joined n a
      → Joined n b
  Turned-Joined {n} a b i t v x = record {
    size = t.threads ∙ x.size;
    bounded = subst (λ d. joined d n ≤ n) (sym t.same_destructor) x.bounded;
    serving = λ off j.
        let off' = ap is_called (sym t.same_destructor) ∙ off in
        Turned-task (λ u. is_ready u ≡ false) a b i j t
          (λ here.
            Goes-serving a (a.io_futures i) t.task (serving-finished a a.destructor refl v off')
              t.goes (x.serving off' i))
          (x.serving off' j);
    waited = λ j lt.
        let old = x.waited j (subst (λ d. j < joined d n) t.same_destructor lt) in
        Turned-task (λ u. is_ready u ≡ true) a b i j t
          (λ here.
            Goes-ready a (a.io_futures i) t.task t.goes
              (ap (λ k. is_ready (a.io_futures k)) here ∙ old))
          old;
  }

  destroy-Joined :
      {n : ℕ} (a : AsioContext ctx) (d : Destructor)
      → a.destructor ≡ d
      → Joined n a
      → Joined n (destroy ctx a d)
  unfolding destroy
  destroy-Joined a not_called e x = record {
    size = x.size;
    bounded = omega arith;
    serving = λ off i. elim (true≢false off) [ ];
    waited = λ i lt. ground arith;
  }
  destroy-Joined {n} a (awaiting next) e x =
      let done : (i : ℕ) → i < next → is_ready (a.io_futures i) ≡ true =
        λ i lt. x.waited i (subst (λ d. i < joined d n) (sym e) lt) in
      elim (Bool-cases (ltb next a.io_threads)) [
        | inl more ↦ elim (Bool-cases (is_ready (a.io_futures next))) [
          | inl ready ↦ rw more (
              rw ready (record {
                size = x.size;
                bounded = ground (arith, x.size);
                serving = λ off i. elim (true≢false off) [ ];
                waited = λ i lt. elim (ℕ_discrete next i) [
                  | yes here ↦ ap (λ k. is_ready (a.io_futures k)) (sym here) ∙ ready
                  | no other ↦ done i (omega (arith, lt, other))
                ];
              }))
          | inr busy ↦ rw more (rw busy x)
        ]
        | inr over ↦ rw over (record {
          size = x.size;
          bounded = omega arith;
          serving = λ off i. elim (true≢false off) [ ];
          waited = λ i lt. done i (ground (arith, x.size));
        })
      ]
  destroy-Joined a destroyed e x = x

  Step-Joined : {n : ℕ} {a b : AsioContext ctx} → Step ctx a b → Inv ctx a → Joined n a → Joined n b
  unfolding post async_after await_suspend
  Step-Joined (posts func alive) v x = record {
    size = x.size;
    bounded = x.bounded;
    serving = x.serving;
    waited = x.waited;
  }
  Step-Joined (waits duration func alive) v x = record {
    size = x.size;
    bounded = x.bounded;
    serving = x.serving;
    waited = x.waited;
  }
  Step-Joined (delays duration alive) v x = record {
    size = x.size;
    bounded = x.bounded;
    serving = x.serving;
    waited = x.waited;
  }
  Step-Joined {a = a} (runs i b few e) v x = Turned-Joined a b i (io_turn-some ctx a b i v e) v x
  Step-Joined {a = a} destroys v x = destroy-Joined a a.destructor refl x

  pub Reach-Joined : {n : ℕ} {a : AsioContext ctx} → Reach ctx n a → Joined n a
  unfolding create is_ready
  Reach-Joined start = record {
    size = refl;
    bounded = omega arith;
    serving = λ off i. refl;
    waited = λ i lt. ground arith;
  }
  Reach-Joined (later r st) = Step-Joined st (Reach-Inv ctx r) (Reach-Joined r)

  -- Until the destructor is called, no pool task has left `run`; and once the context is destroyed,
  -- each task that the constructor submitted has, so that none of them uses the context any more.
  pub run-joined :
      {n : ℕ} (a : AsioContext ctx)
      → Reach ctx n a
      → (a.destructor ≡ not_called → (i : ℕ) → is_ready (a.io_futures i) ≡ false)
        × (a.destructor ≡ destroyed → (i : ℕ) → i < n → is_ready (a.io_futures i) ≡ true)
  run-joined {n} a r =
      let x = Reach-Joined r in
      (
        λ e. x.serving (ap is_called e),
        λ e i lt. x.waited i (subst (λ d. i < joined d n) (sym e) lt),
      )
