-- ===== src/AsioContext/Turns.antt =====
-- include/ate/asio_context.hpp: the turns of the pool tasks and of the destructor.
use mathlib.Core.Option.{some-injective, none-ne-some}
use async_task_engine.Common.{
  ℕ, suc, ◌≤◌, ◌<◌, ◌≡◌, refl, sym, ap, subst, ◌∙◌, ◌⊎◌, inl, inr, true, false, Option, none, some,
  length, get_elem?, update, arith, if◌then◌else◌, Bool-cases, ltb,
}
use async_task_engine.AsioContext.{
  IoContext, Status, Handler, drop_handler, IoTask, queued, inside_run, run_returned, Destructor,
  not_called, awaiting, destroyed, is_ready, AsioContext, run_turn, io_turn, destroy,
}
use async_task_engine.AsioContext.State.{is_destroyed, status_at, IsOnce-same, IsOnce, Inv}
use async_task_engine.AsioContext.Handlers.{handle-some}
use mathlib.Core.Bool.{true≢false}

module _ {Io : Type 0} (ctx : IoContext Io) where
  -- Where the turn of a pool task may lead.
  abbrev pub Goes : AsioContext ctx → IoTask → IoTask → Type 0
  Goes a queued t = t ≡ inside_run
  Goes a inside_run t =
      ((t ≡ inside_run) × (ctx.poll a.io_ctx ≡ none → ctx.finished a.io_ctx ≡ false))
      ⊎ ((t ≡ run_returned) × (ctx.finished a.io_ctx ≡ true))
  Goes a run_returned t = t ≡ run_returned

  abbrev pub Kept : AsioContext ctx → AsioContext ctx → Type 0
  Kept a b =
      Inv ctx b
      × (b.io_futures ≡ a.io_futures)
      × (b.io_threads ≡ a.io_threads)
      × (b.destructor ≡ a.destructor)

  polled :
      (a : AsioContext ctx) (o : Option (ℕ × ℕ × Io))
      → ctx.poll a.io_ctx ≡ o
      → Inv ctx a
      → (t : IoTask) × (b : AsioContext ctx) × (run_turn ctx a inside_run ≡ some (t, b))
        × Goes a inside_run t
        × Kept a b
  unfolding run_turn
  polled a (some (k, ec, io)) e v =
      let (b, made, w, moved, futures, threads, same) = handle-some ctx a k ec io e v in
      (
        inside_run,
        b,
        rw (e, run_turn) (rw made refl),
        inl (refl, λ n. elim (none-ne-some _ (sym n ∙ e)) [ ]),
        (w, futures, threads, same),
      )
  polled a none e v = elim (Bool-cases (ctx.finished a.io_ctx)) [
    | inl over ↦
        (run_returned, a, rw (e, run_turn) (rw over refl), inr (refl, over), (v, refl, refl, refl))
    | inr on ↦
        (inside_run, a, rw (e, run_turn) (rw on refl), inl (refl, λ n. on), (v, refl, refl, refl))
  ]

  run_turn-total :
      (a : AsioContext ctx) (old : IoTask)
      → Inv ctx a
      → (t : IoTask) × (b : AsioContext ctx) × (run_turn ctx a old ≡ some (t, b))
        × Goes a old t
        × Kept a b
  unfolding run_turn
  run_turn-total a queued v = (inside_run, a, refl, refl, (v, refl, refl, refl))
  run_turn-total a inside_run v = polled a (ctx.poll a.io_ctx) refl v
  run_turn-total a run_returned v = (run_returned, a, refl, refl, (v, refl, refl, refl))

  -- What the turn of a pool task does.
  pub record Turned (a : AsioContext ctx) (i : ℕ) (b : AsioContext ctx) : Type 0 where
    pub task : IoTask
    pub goes : Goes a (a.io_futures i) task
    pub futures : b.io_futures ≡ update a.io_futures i task
    pub threads : b.io_threads ≡ a.io_threads
    pub same_destructor : b.destructor ≡ a.destructor
    pub kept : Inv ctx b

  pub io_turn-Turned :
      (a : AsioContext ctx) (i : ℕ)
      → Inv ctx a
      → (b : AsioContext ctx) × (io_turn ctx a i ≡ some b) × Turned a i b
  unfolding io_turn
  io_turn-Turned a i v =
      let (t, b, e, goes, (w, futures, threads, same)) = run_turn-total a (a.io_futures i) v in
      (
        record b { io_futures = update b.io_futures i t },
        rw (e, io_turn) refl,
        record {
          task = t;
          goes = goes;
          futures = ap (λ f. update f i t) futures;
          threads = threads;
          same_destructor = same;
          kept = record {
            known = w.known;
            open_later = w.open_later;
            once = w.once;
            stage = w.stage;
          };
        },
      )

  pub io_turn-some :
      (a b : AsioContext ctx) (i : ℕ) → Inv ctx a → io_turn ctx a i ≡ some b → Turned a i b
  io_turn-some a b i v e =
      let (c, made, turned) = io_turn-Turned a i v in
      subst (Turned a i) (some-injective _ _ (sym made ∙ e)) turned

  same-Inv :
      (a b : AsioContext ctx)
      → ((k : ℕ) → ctx.held b.io_ctx k ≡ ctx.held a.io_ctx k)
      → is_destroyed b.destructor ≡ is_destroyed a.destructor
      → b.handlers ≡ a.handlers
      → b.promises ≡ a.promises
      → b.resumes ≡ a.resumes
      → ctx.status b.io_ctx ≡ status_at b.destructor
      → Inv ctx a
      → Inv ctx b
  same-Inv a b held alive handlers promises resumes stage v = record {
    known = λ k e. subst (λ l. k < length l) (sym handlers) (v.known k (sym (held k) ∙ e));
    open_later = λ k le.
        let (p, r) = v.open_later k (subst (λ l. length l ≤ k) handlers le) in
        (ap (λ f. f k) promises ∙ p, ap (λ f. f k) resumes ∙ r);
    once = λ k h e.
        IsOnce-same ctx a b k h (held k) alive (ap (λ f. f k) promises) (ap (λ f. f k) resumes)
          (v.once k h (ap (λ l. get_elem? l k) (sym handlers) ∙ e));
    stage = stage;
  }

  -- What is left when the context goes.
  abbrev dropped : AsioContext ctx → AsioContext ctx
  dropped a = record a {
    promises =
        λ k. if ctx.held a.io_ctx k then drop_handler (get_elem? a.handlers k) else a.promises k;
    destructor = destroyed;
  }

  drop-IsOnce :
      (a : AsioContext ctx) (k : ℕ) (h : Handler)
      → get_elem? a.handlers k ≡ some h
      → is_destroyed a.destructor ≡ false
      → IsOnce ctx a k h
      → IsOnce ctx (dropped a) k h
  drop-IsOnce a k h at alive (inl (p, q, (x, y))) =
      inr (inr (p, refl, (rw p (ap drop_handler at), y)))
  drop-IsOnce a k h at alive (inr (inl (p, (ec, x, y)))) = inr (inl (p, (ec, rw p x, y)))
  drop-IsOnce a k h at alive (inr (inr (p, q, d))) = elim (true≢false (sym q ∙ alive)) [ ]

  drop-Inv :
      (a : AsioContext ctx) (next : ℕ)
      → a.destructor ≡ awaiting next
      → Inv ctx a
      → Inv ctx (dropped a)
  drop-Inv a next e v = record {
    known = v.known;
    open_later = λ k le.
        let (p, r) = v.open_later k le in
        elim (Bool-cases (ctx.held a.io_ctx k)) [
          | inl was ↦ let bad : ⊥ = omega (arith, le, v.known k was) in elim bad [ ]
          | inr not ↦ (rw not p, r)
        ];
    once = λ k h at. drop-IsOnce a k h at (ap is_destroyed e) (v.once k h at);
    stage = v.stage ∙ ap status_at e;
  }

  abbrev stop_status : Status → Status
  stop_status s = record s { stopped = true }

  pub destroy-Inv :
      (a : AsioContext ctx) (d : Destructor)
      → a.destructor ≡ d
      → Inv ctx a
      → Inv ctx (destroy ctx a d)
  unfolding destroy
  destroy-Inv a not_called e v =
      same-Inv a _ (λ k. ctx.held-stop (ctx.reset a.io_ctx) k ∙ ctx.held-reset a.io_ctx k)
        (sym (ap is_destroyed e)) refl refl refl
        (ctx.status-stop (ctx.reset a.io_ctx) ∙ ap stop_status (ctx.status-reset a.io_ctx)) v
  destroy-Inv a (awaiting next) e v = elim (Bool-cases (ltb next a.io_threads)) [
    | inl more ↦ elim (Bool-cases (is_ready (a.io_futures next))) [
      | inl ready ↦ rw more (
          rw ready (
            same-Inv a (record a { destructor = awaiting (suc next) }) (λ k. refl)
              (sym (ap is_destroyed e)) refl refl refl (v.stage ∙ ap status_at e) v))
      | inr busy ↦ rw more (rw busy v)
    ]
    | inr over ↦ rw over (drop-Inv a next e v)
  ]
  destroy-Inv a destroyed e v = v
