-- ===== src/AsioContext/Once.antt =====
-- include/ate/asio_context.hpp: what becomes of each handler.
use async_task_engine.Common.{
  ℕ, ◌≡◌, refl, sym, ap, ◌∙◌, ◌⊎◌, inl, inr, true, false, some, get_elem?, length,
}
use mathlib.Core.Option.{none-ne-some}
use mathlib.Core.Bool.{true≢false}
use async_task_engine.AsioContext.{
  IoContext, Status, Handler, posted, timed, delayed, destroyed, AsioContext, create, post,
  async_after, delay, await_suspend, handle,
}
use async_task_engine.AsioContext.State.{
  is_destroyed, Step, posts, waits, delays, runs, destroys, Reach, start, later, IsCalled,
  IsDropped, Inv,
}
use async_task_engine.AsioContext.Handlers.{handed-Inv, handle-some}
use async_task_engine.AsioContext.Turns.{io_turn-some, destroy-Inv}

module _ {Io : Type 0} (ctx : IoContext Io) where
  Step-Inv : {a b : AsioContext ctx} → Step ctx a b → Inv ctx a → Inv ctx b
  unfolding post async_after delay await_suspend
  Step-Inv {a} (posts func alive) v =
      handed-Inv ctx a _ (posted func) (ctx.held-post a.io_ctx (length a.handlers))
        (ctx.status-post a.io_ctx (length a.handlers)) alive v
  Step-Inv {a} (waits duration func alive) v =
      handed-Inv ctx a _ (timed func) (ctx.held-async_wait a.io_ctx duration (length a.handlers))
        (ctx.status-async_wait a.io_ctx duration (length a.handlers)) alive v
  Step-Inv {a} (delays duration alive) v =
      handed-Inv ctx a _ delayed (ctx.held-async_wait a.io_ctx duration (length a.handlers))
        (ctx.status-async_wait a.io_ctx duration (length a.handlers)) alive v
  Step-Inv {a} (runs i b few e) v = let turned = io_turn-some ctx a b i v e in turned.kept
  Step-Inv {a} destroys v = destroy-Inv ctx a a.destructor refl v

  abbrev guard_status : Status → Status
  guard_status s = record s { guarded = true }

  pub Reach-Inv : {n : ℕ} {a : AsioContext ctx} → Reach ctx n a → Inv ctx a
  unfolding create
  Reach-Inv start =
      let fresh : (k : ℕ) → ctx.held (ctx.make_work_guard ctx.fresh) k ≡ false =
        λ k. ctx.held-make_work_guard ctx.fresh k ∙ ctx.held-fresh k in
      record {
        known = λ k e. elim (true≢false (sym e ∙ fresh k)) [ ];
        open_later = λ k le. (refl, refl);
        once = λ k h e. elim (none-ne-some h e) [ ];
        stage = ctx.status-make_work_guard ctx.fresh ∙ ap guard_status ctx.status-fresh;
      }
  Reach-Inv (later r st) = Step-Inv st (Reach-Inv r)

  -- The context is never made to call an unknown handler, and no promise is filled twice.
  pub handle-total :
      {n : ℕ} (a : AsioContext ctx) (k ec : ℕ) (io : Io)
      → Reach ctx n a
      → ctx.poll a.io_ctx ≡ some (k, ec, io)
      → (b : AsioContext ctx) × (handle ctx a k ec io ≡ some b)
  handle-total a k ec io r e = let x = handle-some ctx a k ec io e (Reach-Inv r) in (x.0, x.1)

  -- After the destructor, each handler either was called once or was dropped. If it was called,
  -- its promise holds what it left there, and the coroutine of a `delay` was resumed once; if it
  -- was dropped, the promise holds the error of a broken promise, and the coroutine was not resumed.
  pub destroy-filled :
      {n : ℕ} (a : AsioContext ctx) (k : ℕ) (h : Handler)
      → Reach ctx n a
      → a.destructor ≡ destroyed
      → get_elem? a.handlers k ≡ some h
      → IsCalled ctx a k h ⊎ IsDropped ctx a k h
  destroy-filled a k h r gone at = elim ((Reach-Inv r).once k h at) [
    | inl (p, q, o) ↦ elim (true≢false (sym (ap is_destroyed gone) ∙ q)) [ ]
    | inr (inl (p, c)) ↦ inl c
    | inr (inr (p, q, d)) ↦ inr d
  ]
