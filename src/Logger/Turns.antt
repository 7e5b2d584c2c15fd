-- ===== src/Logger/Turns.antt =====
-- include/ate/logger.hpp: one turn of the drain thread, member by member.
use async_task_engine.Common.{
  Option, ℕ, ◌≤◌, ◌≡◌, ap, List, [], ◌∷◌, ◌++◌, append_assoc, append-nil, arith, Bool-cases, inl,
  inr,
}
use async_task_engine.Logger.{
  queue_empty, LogEntry, Logger, Drain, checking, probing, waiting, writing, finished, drain_turn,
}
use async_task_engine.Logger.System.{Flusher, idle, flushing, System, append, drains}
use async_task_engine.Logger.Invariant.{batch_of, seen, Prefix-append, Waits}

pub turn-generations :
    (l : Logger) (d : Drain)
    → l.flush_gen_done ≤ seen l.flush_gen_done d
    → seen l.flush_gen_done d ≤ l.flush_gen_pending
    → (let t = drain_turn l d in
        (t.logger.flush_gen_pending ≡ l.flush_gen_pending)
        × (t.logger.flush_gen_done ≤ seen t.logger.flush_gen_done t.next)
        × (seen t.logger.flush_gen_done t.next ≤ t.logger.flush_gen_pending))
unfolding drain_turn
turn-generations l (writing [] pending) h k = ground arith
turn-generations l (writing (entry ∷ batch) pending) h k = ground arith
turn-generations l d h k = ground arith

pub turn-order :
    (l : Logger) (d : Drain) (written : List LogEntry)
    → (let t = drain_turn l d in
        append written t.wrote ++ (batch_of t.next ++ t.logger.queue)
        ≡ written ++ (batch_of d ++ l.queue))
unfolding drain_turn
turn-order l (writing [] pending) written = ground arith
turn-order l (writing (entry ∷ batch) pending) written =
    append_assoc written (entry ∷ []) (batch ++ l.queue)
turn-order l waiting written = ap (λ xs. written ++ xs) (append-nil l.queue)
turn-order l d written = ground arith

pub turn-Waits :
    (l : Logger) (d : Drain) (fs : ℕ → Flusher) (gs : ℕ → Option LogEntry)
    (accepted written : List LogEntry) (f : Flusher)
    → (let s : System = record {
      logger = l;
      drain = d;
      flusher = fs;
      logging = gs;
      accepted = accepted;
      written = written;
    } in
        accepted ≡ written ++ (batch_of d ++ l.queue)
        → seen l.flush_gen_done d ≤ l.flush_gen_pending
        → Waits s f
        → Waits (drains s) f)
unfolding drain_turn
turn-Waits l d fs gs accepted written idle o le w = tt
turn-Waits l checking fs gs accepted written (flushing target before closing) o le w =
    elim (Bool-cases l.running) [ inl e ↦ simp e w | inr e ↦ simp e w ]
turn-Waits l probing fs gs accepted written (flushing target before closing) o le w =
    elim (Bool-cases (queue_empty l.queue)) [ inl e ↦ simp e w | inr e ↦ simp e w ]
turn-Waits l waiting fs gs accepted written (flushing target before closing) o le w =
    (w.0, w.1, (λ k. rw (← o) w.1), w.3)
turn-Waits l (writing (entry ∷ batch) pending) fs gs accepted written
      (flushing target before closing) o le w =
    (
      w.0,
      w.1,
      (λ k. rw (append_assoc written (entry ∷ []) batch) (w.2 k)),
      λ k. Prefix-append before written (entry ∷ []) (w.3 k),
    )
turn-Waits l (writing [] pending) fs gs accepted written (flushing target before closing) o le w =
    (w.0, w.1, w.2, λ k. rw (← append-nil written) (w.2 k))
turn-Waits l finished fs gs accepted written (flushing target before closing) o le w = w
