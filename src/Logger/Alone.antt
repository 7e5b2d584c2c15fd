-- ===== src/Logger/Alone.antt =====
-- include/ate/logger.hpp: runs of the drain thread alone.
use async_task_engine.Common.{
  Option, ℕ, zero, suc, ◌+◌, ◌≤◌, ◌≡◌, refl, sym, ap, subst, ◌∙◌, true, false, List, [], ◌∷◌, ◌++◌,
  append_assoc, append-nil, arith, length, if◌then◌else◌,
}
use async_task_engine.Logger.{
  LogEntry, Logger, queue_empty, Drain, checking, probing, waiting, writing, finished, drain_turn,
}
use async_task_engine.Logger.System.{Flusher, System, drains}

-- Turns of the drain thread in a row.
unfoldable pub drain_alone : ℕ → System → System
drain_alone zero s = s
drain_alone (suc k) s = drain_alone k (drains s)

pub drain_alone-zero : (s : System) → drain_alone 0 s ≡ s
unfolding drain_alone
drain_alone-zero s = refl

drain_alone-plus : (j k : ℕ) (s : System) → drain_alone (j + k) s ≡ drain_alone k (drain_alone j s)
unfolding drain_alone
drain_alone-plus zero k s = let same : 0 + k ≡ k = omega arith in ap (λ x. drain_alone x s) same
drain_alone-plus (suc j) k s =
    let moved : suc j + k ≡ suc (j + k) = omega arith in
    ap (λ x. drain_alone x s) moved ∙ drain_alone-plus j k (drains s)

-- A batch is written out and its generation published.
module _ (fs : ℕ → Flusher) (gs : ℕ → Option LogEntry) (accepted : List LogEntry) where
  abbrev pub at : Logger → Drain → List LogEntry → System
  at l d written = record {
    logger = l;
    drain = d;
    flusher = fs;
    logging = gs;
    accepted = accepted;
    written = written;
  }

  pub drain_alone-writing :
      (l : Logger) (batch : List LogEntry) (pending : ℕ) (written : List LogEntry)
      → drain_alone (suc (length batch)) (at l (writing batch pending) written)
        ≡ at (record l { flush_gen_done = pending }) checking (written ++ batch)
  unfolding drain_alone drain_turn
  drain_alone-writing l [] pending written =
      ap (at (record l { flush_gen_done = pending }) checking) (sym (append-nil written))
  drain_alone-writing l (entry ∷ batch) pending written =
      drain_alone-writing l batch pending (written ++ entry ∷ [])
      ∙ ap (at (record l { flush_gen_done = pending }) checking)
          (append_assoc written (entry ∷ []) batch)

  pub drain_alone-waiting :
      (l : Logger) (written : List LogEntry)
      → drain_alone (suc (suc (length l.queue))) (at l waiting written)
        ≡ at
            (record l { queue = []; flush_gen_done = l.flush_gen_pending })
            checking
            (written ++ l.queue)
  unfolding drain_alone drain_turn
  drain_alone-waiting l written =
      drain_alone-writing (record l { queue = [] }) l.queue l.flush_gen_pending written

  pub drain_alone-running :
      (l : Logger) (written : List LogEntry)
      → l.running ≡ true
      → drain_alone 1 (at l checking written) ≡ at l waiting written
  unfolding drain_alone drain_turn
  drain_alone-running l written run = simp run refl

  pub drain_alone-stopped :
      (l : Logger) (written : List LogEntry)
      → l.running ≡ false
      → drain_alone 1 (at l checking written) ≡ at l probing written
  unfolding drain_alone drain_turn
  drain_alone-stopped l written run = simp run refl

  pub drain_alone-probing :
      (l : Logger) (written : List LogEntry)
      → drain_alone 1 (at l probing written)
        ≡ at l (if queue_empty l.queue then finished else waiting) written
  unfolding drain_alone drain_turn
  drain_alone-probing l written = refl

-- Within a number of turns a state with a property is reached.
abbrev pub Ends {ℓ} : (System → Type ℓ) → ℕ → System → Type ℓ
Ends P bound s = (k : ℕ) × (k ≤ bound) × P (drain_alone k s)

pub Ends-now : (P : System → Type 0) (bound : ℕ) (s : System) → P s → Ends P bound s
unfolding drain_alone
Ends-now P bound s h = (0, omega arith, h)

pub Ends-after :
    (P : System → Type 0) (j bound total : ℕ) (s : System) {t : System}
    → drain_alone j s ≡ t
    → j + bound ≤ total
    → Ends P bound t
    → Ends P total s
Ends-after P j bound total s e le (k, fits, h) = (
  j + k,
  omega (arith, fits, le),
  subst P (sym (drain_alone-plus j k s ∙ ap (drain_alone k) e)) h,
)
