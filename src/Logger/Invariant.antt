-- ===== src/Logger/Invariant.antt =====
-- include/ate/logger.hpp: what holds between the queue, the batch in hand and the generations.
use async_task_engine.Common.{
  ℕ, ◌≤◌, ◌≡◌, refl, sym, List, [], ◌++◌, append_assoc, append-nil, arith,
}
use async_task_engine.Logger.{LogLevel, LogEntry, create, Drain, writing}
use async_task_engine.Logger.System.{Flusher, idle, flushing, System, init}

-- What the drain thread has in hand.
abbrev pub batch_of : Drain → List LogEntry
batch_of (writing batch pending) = batch
batch_of d = []

-- The generation that the drain thread has seen.
abbrev pub seen : ℕ → Drain → ℕ
seen done (writing batch pending) = pending
seen done d = done

abbrev pub Prefix : List LogEntry → List LogEntry → Type 0
Prefix xs ys = (zs : List LogEntry) × (ys ≡ xs ++ zs)

pub Prefix-append : (xs ys zs : List LogEntry) → Prefix xs ys → Prefix xs (ys ++ zs)
Prefix-append xs ys zs (ws, e) = (ws ++ zs, rw e (append_assoc xs ws zs))

pub Prefix-self : (xs : List LogEntry) → Prefix xs xs
Prefix-self xs = ([], sym (append-nil xs))

abbrev pub Waits : System → Flusher → Type 0
Waits s idle = Unit {0}
Waits s (flushing target before closing) =
    (target ≤ s.logger.flush_gen_pending)
    × Prefix before s.accepted
    × (target ≤ seen s.logger.flush_gen_done s.drain
        → Prefix before (s.written ++ batch_of s.drain))
    × (target ≤ s.logger.flush_gen_done → Prefix before s.written)

-- The invariant after `n` steps.
pub record Inv (n : ℕ) (s : System) : Type 0 where
  pub counted : s.logger.flush_gen_pending ≤ n
  pub done_seen : s.logger.flush_gen_done ≤ seen s.logger.flush_gen_done s.drain
  pub seen_pending : seen s.logger.flush_gen_done s.drain ≤ s.logger.flush_gen_pending
  pub order : s.accepted ≡ s.written ++ (batch_of s.drain ++ s.logger.queue)
  pub waits : (i : ℕ) → Waits s (s.flusher i)

pub init-Inv : (min_level : LogLevel) → Inv 0 (init min_level)
unfolding create
init-Inv min_level = record {
  counted = omega arith;
  done_seen = omega arith;
  seen_pending = omega arith;
  order = refl;
  waits = λ i. tt;
}
