-- ===== src/Logger/Ends.antt =====
-- include/ate/logger.hpp: turns of the drain thread until `flush` or the destructor can return.
use async_task_engine.Common.{
  Option, ℕ, suc, ◌+◌, ◌^◌, ◌≤◌, ◌<◌, ◌≡◌, refl, sym, ap, subst, ◌∙◌, Bool, true, false, List, [],
  ◌++◌, append_assoc, append-nil, arith, length, List-cases, if◌then◌else◌, ◌≢◌, inl, inr,
}
use async_task_engine.Logger.{
  LogLevel, LogEntry, Logger, queue_empty, flushed, Drain, checking, probing, waiting, writing,
  finished,
}
use async_task_engine.Logger.System.{Flusher, flushing, System, Reach}
use async_task_engine.Logger.Invariant.{batch_of, Waits}
use async_task_engine.Logger.Moves.{Reach-Inv}
use async_task_engine.Logger.Flush.{Leaves, Reach-Leaves}
use async_task_engine.Logger.Alone.{
  drain_alone, drain_alone-zero, at, drain_alone-writing, drain_alone-waiting, drain_alone-running,
  drain_alone-stopped, drain_alone-probing, Ends, Ends-now, Ends-after,
}

module _ (fs : ℕ → Flusher) (gs : ℕ → Option LogEntry) (accepted : List LogEntry) (target : ℕ) where
  abbrev Caught : System → Type 0
  Caught s = flushed s.logger target ≡ true

  waiting-Caught :
      (l : Logger) (written : List LogEntry)
      → target ≤ l.flush_gen_pending
      → Ends Caught (length l.queue + 2) (at fs gs accepted l waiting written)
  unfolding flushed
  waiting-Caught l written le =
      Ends-after Caught (suc (suc (length l.queue))) 0 _ _
        (drain_alone-waiting fs gs accepted l written) (omega arith)
        (Ends-now Caught 0 _ (ground arith))

  checking-Caught :
      (l : Logger) (written : List LogEntry)
      → l.running ≡ true
      → target ≤ l.flush_gen_pending
      → Ends Caught (length l.queue + 3) (at fs gs accepted l checking written)
  checking-Caught l written run le =
      Ends-after Caught 1 _ _ _ (drain_alone-running fs gs accepted l written run) (omega arith)
        (waiting-Caught l written le)

  flush-Ends_at :
      (l : Logger) (d : Drain) (written : List LogEntry)
      → l.running ≡ true
      → Leaves d l.running
      → target ≤ l.flush_gen_pending
      → Ends Caught (length (batch_of d) + length l.queue + 4) (at fs gs accepted l d written)
  unfolding drain_alone
  flush-Ends_at l checking written run h le =
      Ends-after Caught 0 _ _ _ (drain_alone-zero _) (omega arith)
        (checking-Caught l written run le)
  flush-Ends_at l probing written run h le = ground arith
  flush-Ends_at l finished written run h le = ground arith
  flush-Ends_at l waiting written run h le =
      Ends-after Caught 0 _ _ _ (drain_alone-zero _) (omega arith) (waiting-Caught l written le)
  flush-Ends_at l (writing batch pending) written run h le =
      Ends-after Caught (suc (length batch)) _ _ _
        (drain_alone-writing fs gs accepted l batch pending written) (omega arith)
        (checking-Caught (record l { flush_gen_done = pending }) (written ++ batch) run le)

-- While the destructor has not cleared `running_`, the turns that the drain thread needs to let a
-- waiting `flush` return are at most the entries in hand and queued, and four more; fewer than 2^64
-- steps were made.
pub flush-Ends :
    {m : LogLevel} {n : ℕ} {s : System} (i target : ℕ) (before : List LogEntry) (closing : Bool)
    → n < 2 ^ 64
    → Reach m n s
    → s.flusher i ≡ flushing target before closing
    → s.logger.running ≡ true
    → Ends
        (λ t. flushed t.logger target ≡ true)
        (length (batch_of s.drain) + length s.logger.queue + 4)
        s
flush-Ends {s = s} i target before closing few r e run =
    let w = subst (Waits s) e ((Reach-Inv few r).waits i) in
    flush-Ends_at s.flusher s.logging s.accepted target s.logger s.drain s.written run
      (Reach-Leaves r) w.0

-- The drain thread has left its loop with nothing queued and everything written.
abbrev pub Closed : System → Type 0
Closed s = (s.drain ≡ finished) × (s.logger.queue ≡ []) × (s.written ≡ s.accepted)

module _ (fs : ℕ → Flusher) (gs : ℕ → Option LogEntry) (accepted : List LogEntry) where
  probing-Closed :
      (l : Logger) (written : List LogEntry)
      → l.queue ≡ []
      → accepted ≡ written
      → Ends Closed 1 (at fs gs accepted l probing written)
  unfolding queue_empty
  probing-Closed l written e o =
      Ends-after Closed 1 0 _ _ (drain_alone-probing fs gs accepted l written) (omega arith)
        (Ends-now Closed 0 _ (simp (e, queue_empty) refl, e, sym o))

  checking-Closed :
      (l : Logger) (written : List LogEntry)
      → l.running ≡ false
      → l.queue ≡ []
      → accepted ≡ written
      → Ends Closed 2 (at fs gs accepted l checking written)
  checking-Closed l written run e o =
      Ends-after Closed 1 _ _ _ (drain_alone-stopped fs gs accepted l written run) (omega arith)
        (probing-Closed l written e o)

  waiting-Closed :
      (l : Logger) (written : List LogEntry)
      → l.running ≡ false
      → accepted ≡ written ++ l.queue
      → Ends Closed (length l.queue + 4) (at fs gs accepted l waiting written)
  waiting-Closed l written run o =
      Ends-after Closed (suc (suc (length l.queue))) _ _ _
        (drain_alone-waiting fs gs accepted l written) (omega arith)
        (checking-Closed (record l { queue = []; flush_gen_done = l.flush_gen_pending })
          (written ++ l.queue) run refl o)

  tested-Closed :
      (l : Logger) (written : List LogEntry)
      → l.running ≡ false
      → accepted ≡ written ++ l.queue
      → Ends Closed (length l.queue + 5) (at fs gs accepted l probing written)
  unfolding queue_empty
  tested-Closed l written run o = elim (List-cases l.queue) [
    | inl e ↦
        Ends-after Closed 0 _ _ _ (drain_alone-zero _) (omega arith)
          (probing-Closed l written e (o ∙ ap (λ q. written ++ q) e ∙ append-nil written))
    | inr (x, xs, e) ↦
        let more : queue_empty l.queue ≡ false = rw e refl in
        let next : drain_alone 1 (at fs gs accepted l probing written)
            ≡ at fs gs accepted l waiting written =
          drain_alone-probing fs gs accepted l written
          ∙ ap (λ b. at fs gs accepted l (if b then finished else waiting) written) more in
        Ends-after Closed 1 _ _ _ next (omega arith) (waiting-Closed l written run o)
  ]

  stopped-Closed :
      (l : Logger) (written : List LogEntry)
      → l.running ≡ false
      → accepted ≡ written ++ l.queue
      → Ends Closed (length l.queue + 6) (at fs gs accepted l checking written)
  stopped-Closed l written run o =
      Ends-after Closed 1 _ _ _ (drain_alone-stopped fs gs accepted l written run) (omega arith)
        (tested-Closed l written run o)

  close-Ends_at :
      (l : Logger) (d : Drain) (written : List LogEntry)
      → l.running ≡ false
      → d ≢ finished
      → accepted ≡ written ++ (batch_of d ++ l.queue)
      → Ends Closed (length (batch_of d) + length l.queue + 7) (at fs gs accepted l d written)
  close-Ends_at l checking written run h o =
      Ends-after Closed 0 _ _ _ (drain_alone-zero _) (omega arith) (stopped-Closed l written run o)
  close-Ends_at l probing written run h o =
      Ends-after Closed 0 _ _ _ (drain_alone-zero _) (omega arith) (tested-Closed l written run o)
  close-Ends_at l finished written run h o = elim (h refl) [ ]
  close-Ends_at l waiting written run h o =
      Ends-after Closed 0 _ _ _ (drain_alone-zero _) (omega arith) (waiting-Closed l written run o)
  close-Ends_at l (writing batch pending) written run h o =
      Ends-after Closed (suc (length batch)) _ _ _
        (drain_alone-writing fs gs accepted l batch pending written) (omega arith)
        (stopped-Closed (record l { flush_gen_done = pending }) (written ++ batch) run
          (o ∙ sym (append_assoc written batch l.queue)))

-- Once the destructor has cleared `running_`, the drain thread, if it has not finished, leaves its
-- loop within at most as many turns as there are entries in hand and queued, and seven more, with
-- nothing queued and all that was accepted given to the sink; fewer than 2^64 steps were made.
pub close-Ends :
    {m : LogLevel} {n : ℕ} {s : System}
    → n < 2 ^ 64
    → Reach m n s
    → s.logger.running ≡ false
    → s.drain ≢ finished
    → Ends Closed (length (batch_of s.drain) + length s.logger.queue + 7) s
close-Ends {s = s} few r run open_still =
    close-Ends_at s.flusher s.logging s.accepted s.logger s.drain s.written run open_still
      (Reach-Inv few r).order
