-- ===== src/AsioContext/Handlers.antt =====
-- include/ate/asio_context.hpp: the state of each handler under hand-overs and calls.
use mathlib.Core.Option.{some-injective, none-ne-some}
use async_task_engine.Common.{
  ℕ, suc, ◌≡◌, refl, sym, ap, ◌∙◌, inl, inr, true, false, [], ◌∷◌, ◌++◌, Option, none, some, length,
  get_elem?, update, update-at, update-other, ℕ_discrete, length-append, arith, ◌==◌, if◌then◌else◌,
  Bool-cases,
}
use async_task_engine.AsyncResult.{Outcome, threw}
use async_task_engine.AsioContext.{
  IoContext, Handler, posted, timed, delayed, timer_error, call_handler, AsioContext, fulfil,
  handle,
}
use async_task_engine.AsyncResult.Means.{get_elem?-snoc, get_elem?-lt}
use async_task_engine.AsyncResult.Progress.{get_elem?-some}
use mathlib.Core.Bool.{true≢false}
use async_task_engine.AsioContext.State.{
  is_destroyed, stopped_at, resumes_of, IsOpen, Inv, IsOnce-same,
}

module _ {Io : Type 0} (ctx : IoContext Io) where
  -- A handler is handed over to the context.
  pub handed-Inv :
      (a : AsioContext ctx) (io : Io) (h : Handler)
      → ((k : ℕ) → ctx.held io k ≡ update (ctx.held a.io_ctx) (length a.handlers) true k)
      → ctx.status io ≡ ctx.status a.io_ctx
      → is_destroyed a.destructor ≡ false
      → Inv ctx a
      → Inv ctx (record a { io_ctx = io; handlers = a.handlers ++ h ∷ [] })
  handed-Inv a io h held same_status alive v = record {
    known = λ k e. elim (ℕ_discrete (length a.handlers) k) [
      | yes here ↦ omega (arith, here, length-append a.handlers (h ∷ []))
      | no other ↦
          let old = v.known k (
            sym (held k ∙ update-other (ctx.held a.io_ctx) (length a.handlers) true k other) ∙ e) in
          omega (arith, old, length-append a.handlers (h ∷ []))
    ];
    open_later = λ k le. v.open_later k (omega (arith, le, length-append a.handlers (h ∷ [])));
    once = λ k g e. elim (get_elem?-snoc a.handlers h k g e) [
      | inl old ↦
          let lt = get_elem?-lt a.handlers k g old in
          let same =
            held k
            ∙ update-other (ctx.held a.io_ctx) (length a.handlers) true k
                (λ n. omega (arith, n, lt)) in
          IsOnce-same ctx a (record a { io_ctx = io }) k g same refl refl refl (v.once k g old)
      | inr (here, new) ↦ inl (
        held k ∙ update-at (ctx.held a.io_ctx) (length a.handlers) true k (sym here),
        alive,
        v.open_later k (omega (arith, here)),
      )
    ];
    stage = same_status ∙ v.stage;
  }

  -- A handler was called, whatever was done for it.
  handled-Inv :
      (a : AsioContext ctx) (k ec : ℕ) (io : Io) (h : Handler) (promises : ℕ → Option Outcome)
      (resumes : ℕ → ℕ)
      → ctx.poll a.io_ctx ≡ some (k, ec, io)
      → get_elem? a.handlers k ≡ some h
      → (promises k ≡ call_handler h ec) × (resumes k ≡ resumes_of h)
      → ((j : ℕ) → ¬ (k ≡ j) → (promises j ≡ a.promises j) × (resumes j ≡ a.resumes j))
      → Inv ctx a
      → Inv ctx (record a { io_ctx = io; promises = promises; resumes = resumes })
  handled-Inv a k ec io h promises resumes e at (filled, counted) rest v =
      let called = (ctx.held-poll a.io_ctx io k ec e).1 in
      let b = record a { io_ctx = io; promises = promises; resumes = resumes } in
      record {
        known = λ j f. elim (ℕ_discrete k j) [
          | yes here ↦
              elim (true≢false
                (sym f ∙ called j ∙ update-at (ctx.held a.io_ctx) k false j here)) [ ]
          | no other ↦
              v.known j (sym (called j ∙ update-other (ctx.held a.io_ctx) k false j other) ∙ f)
        ];
        open_later = λ j le.
            let lt = get_elem?-lt a.handlers k h at in
            let (p, r) = rest j (λ n. omega (arith, n, lt, le)) in
            let (x, y) = v.open_later j le in (p ∙ x, r ∙ y);
        once = λ j g f. elim (ℕ_discrete k j) [
          | yes here ↦
              let same : h ≡ g = some-injective _ _ (sym at ∙ ap (get_elem? a.handlers) here ∙ f) in
              inr (
                inl (
                  called j ∙ update-at (ctx.held a.io_ctx) k false j here,
                  (
                    ec,
                    ap promises (sym here) ∙ filled ∙ ap (λ x. call_handler x ec) same,
                    ap resumes (sym here) ∙ counted ∙ ap resumes_of same,
                  ),
                ))
          | no other ↦
              let (p, r) = rest j other in
              IsOnce-same ctx a b j g (called j ∙ update-other (ctx.held a.io_ctx) k false j other)
                refl p r (v.once j g f)
        ];
        stage = ctx.status-poll a.io_ctx io k ec e ∙ v.stage;
      }

  -- What a call of a handler leaves behind.
  abbrev pub Handled : AsioContext ctx → ℕ → ℕ → Io → Handler → Type 0
  Handled a k ec io h =
      (promises : ℕ → Option Outcome) × (resumes : ℕ → ℕ) × (handle ctx a k ec io
        ≡ some (record a { io_ctx = io; promises = promises; resumes = resumes }))
      × ((promises k ≡ call_handler h ec) × (resumes k ≡ resumes_of h))
      × ((j : ℕ) → ¬ (k ≡ j) → (promises j ≡ a.promises j) × (resumes j ≡ a.resumes j))

  fulfil-open :
      (a : AsioContext ctx) (k : ℕ) (o : Outcome)
      → a.promises k ≡ none
      → fulfil ctx a.promises k o ≡ some (update a.promises k (some o))
  unfolding fulfil
  fulfil-open a k o p = rw (p, fulfil) refl

  handle-known :
      (a : AsioContext ctx) (k ec : ℕ) (io : Io) (h : Handler)
      → get_elem? a.handlers k ≡ some h
      → IsOpen ctx a k
      → Handled a k ec io h
  unfolding handle call_handler
  handle-known a k ec io (posted func) at (p, r) = (
    update a.promises k (some func),
    a.resumes,
    rw (at, handle) (rw (fulfil-open a k func p) refl),
    (update-at a.promises k (some func) k refl, r),
    λ j other. (update-other a.promises k (some func) j other, refl),
  )
  handle-known a k ec io (timed func) at (p, r) =
      let o = if ec == 0 then func else threw timer_error in
      (
        update a.promises k (some o),
        a.resumes,
        rw (at, handle) (rw (fulfil-open a k o p) refl),
        (update-at a.promises k (some o) k refl, r),
        λ j other. (update-other a.promises k (some o) j other, refl),
      )
  handle-known a k ec io delayed at (p, r) = (
    a.promises,
    update a.resumes k (suc (a.resumes k)),
    rw (at, handle) refl,
    (p, update-at a.resumes k (suc (a.resumes k)) k refl ∙ ap suc r),
    λ j other. (refl, update-other a.resumes k (suc (a.resumes k)) j other),
  )

  -- A context whose destructor has ended calls nothing.
  poll-open :
      (a : AsioContext ctx) (x : ℕ × ℕ × Io)
      → Inv ctx a
      → ctx.poll a.io_ctx ≡ some x
      → is_destroyed a.destructor ≡ false
  poll-open a x v e = elim (Bool-cases (is_destroyed a.destructor)) [
    | inl gone ↦
        let stopped = ap (λ s. s.stopped) v.stage ∙ stopped_at a.destructor gone in
        elim (none-ne-some x (sym (ctx.poll-stopped a.io_ctx stopped) ∙ e)) [ ]
    | inr alive ↦ alive
  ]

  held-IsOpen :
      (a : AsioContext ctx) (k : ℕ) (h : Handler)
      → Inv ctx a
      → ctx.held a.io_ctx k ≡ true
      → is_destroyed a.destructor ≡ false
      → get_elem? a.handlers k ≡ some h
      → IsOpen ctx a k
  held-IsOpen a k h v was alive at = elim (v.once k h at) [
    | inl (p, q, o) ↦ o
    | inr (inl (p, c)) ↦ elim (true≢false (sym was ∙ p)) [ ]
    | inr (inr (p, q, d)) ↦ elim (true≢false (sym q ∙ alive)) [ ]
  ]

  -- The context calls only handlers that were handed over, and nothing was done for them before.
  pub handle-some :
      (a : AsioContext ctx) (k ec : ℕ) (io : Io)
      → ctx.poll a.io_ctx ≡ some (k, ec, io)
      → Inv ctx a
      → (b : AsioContext ctx) × (handle ctx a k ec io ≡ some b)
        × Inv ctx b
        × (b.io_ctx ≡ io)
        × (b.io_futures ≡ a.io_futures)
        × (b.io_threads ≡ a.io_threads)
        × (b.destructor ≡ a.destructor)
  handle-some a k ec io e v =
      let was = (ctx.held-poll a.io_ctx io k ec e).0 in
      let (h, at) = get_elem?-some a.handlers k (v.known k was) in
      let alive = poll-open a (k, ec, io) v e in
      let (promises, resumes, made, done, rest) =
        handle-known a k ec io h at (held-IsOpen a k h v was alive at) in
      (
        record a { io_ctx = io; promises = promises; resumes = resumes },
        made,
        handled-Inv a k ec io h promises resumes e at done rest v,
        refl,
        refl,
        refl,
        refl,
      )
