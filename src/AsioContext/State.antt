-- ===== src/AsioContext/State.antt =====
-- include/ate/asio_context.hpp: the steps of a context and the state of each handler.
use async_task_engine.Common.{
  ℕ, ◌≤◌, ◌<◌, ◌≡◌, refl, sym, ◌∙◌, ◌⊎◌, inl, inr, Bool, true, false, none, some, length, get_elem?,
}
use async_task_engine.AsyncResult.{Outcome}
use async_task_engine.AsioContext.{
  IoContext, Status, Handler, delayed, call_handler, drop_handler, Destructor, not_called, awaiting,
  destroyed, AsioContext, create, post, async_after, delay, await_suspend, io_turn, destroy,
}
use mathlib.Core.Bool.{true≢false}

abbrev pub is_destroyed : Destructor → Bool
is_destroyed destroyed = true
is_destroyed d = false

-- The status of the context is that of the stage of the destructor.
abbrev pub status_at : Destructor → Status
status_at not_called = record { guarded = true; stopped = false }
status_at d = record { guarded = false; stopped = true }

pub stopped_at : (d : Destructor) → is_destroyed d ≡ true → (status_at d).stopped ≡ true
stopped_at not_called e = elim (true≢false (sym e)) [ ]
stopped_at (awaiting next) e = refl
stopped_at destroyed e = refl

-- How often a handler that was called has resumed its coroutine.
abbrev pub resumes_of : Handler → ℕ
resumes_of delayed = 1
resumes_of h = 0

module _ {Io : Type 0} (ctx : IoContext Io) where
  -- Users call a context until it is destroyed, and a pool task is one that the constructor made.
  pub data Step (a : AsioContext ctx) : AsioContext ctx → Type 0 where
    posts : (func : Outcome) → is_destroyed a.destructor ≡ false → Step a (post ctx a func).1
    waits :
        (duration : ℕ) (func : Outcome)
        → is_destroyed a.destructor ≡ false
        → Step a (async_after ctx a duration func).1
    delays :
        (duration : ℕ)
        → is_destroyed a.destructor ≡ false
        → Step a (await_suspend ctx a (delay duration))
    runs : (i : ℕ) (b : AsioContext ctx) → i < a.io_threads → io_turn ctx a i ≡ some b → Step a b
    destroys : Step a (destroy ctx a a.destructor)

  pub data Reach (io_threads : ℕ) : AsioContext ctx → Type 0 where
    start : Reach io_threads (create ctx io_threads)
    later : {a b : AsioContext ctx} → Reach io_threads a → Step a b → Reach io_threads b

  -- A handler is held and nothing done for it, or it was called, or it was dropped.
  abbrev pub IsOpen : AsioContext ctx → ℕ → Type 0
  IsOpen a k = (a.promises k ≡ none) × (a.resumes k ≡ 0)

  abbrev pub IsCalled : AsioContext ctx → ℕ → Handler → Type 0
  IsCalled a k h = (ec : ℕ) × (a.promises k ≡ call_handler h ec) × (a.resumes k ≡ resumes_of h)

  abbrev pub IsDropped : AsioContext ctx → ℕ → Handler → Type 0
  IsDropped a k h = (a.promises k ≡ drop_handler (some h)) × (a.resumes k ≡ 0)

  abbrev pub IsOnce : AsioContext ctx → ℕ → Handler → Type 0
  IsOnce a k h =
      ((ctx.held a.io_ctx k ≡ true) × (is_destroyed a.destructor ≡ false) × IsOpen a k)
      ⊎ ((ctx.held a.io_ctx k ≡ false) × IsCalled a k h)
      ⊎ ((ctx.held a.io_ctx k ≡ true) × (is_destroyed a.destructor ≡ true) × IsDropped a k h)

  pub record Inv (a : AsioContext ctx) : Type 0 where
    pub known : (k : ℕ) → ctx.held a.io_ctx k ≡ true → k < length a.handlers
    pub open_later : (k : ℕ) → length a.handlers ≤ k → IsOpen a k
    pub once : (k : ℕ) (h : Handler) → get_elem? a.handlers k ≡ some h → IsOnce a k h
    pub stage : ctx.status a.io_ctx ≡ status_at a.destructor

  pub IsOnce-same :
      (a b : AsioContext ctx) (k : ℕ) (h : Handler)
      → ctx.held b.io_ctx k ≡ ctx.held a.io_ctx k
      → is_destroyed b.destructor ≡ is_destroyed a.destructor
      → b.promises k ≡ a.promises k
      → b.resumes k ≡ a.resumes k
      → IsOnce a k h
      → IsOnce b k h
  IsOnce-same a b k h e d f g (inl (p, q, (x, y))) = inl (e ∙ p, d ∙ q, (f ∙ x, g ∙ y))
  IsOnce-same a b k h e d f g (inr (inl (p, (ec, x, y)))) = inr (inl (e ∙ p, (ec, f ∙ x, g ∙ y)))
  IsOnce-same a b k h e d f g (inr (inr (p, q, (x, y)))) = inr (inr (e ∙ p, d ∙ q, (f ∙ x, g ∙ y)))
