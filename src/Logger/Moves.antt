-- ===== src/Logger/Moves.antt =====
-- include/ate/logger.hpp: the invariant after each kind of step.
use async_task_engine.Common.{
  ℕ, suc, ◌+◌, ◌%◌, ◌^◌, ◌≤◌, ◌<◌, ◌≡◌, sym, ◌∙◌, Bool, true, false, List, [], ◌∷◌, ◌++◌,
  append_assoc, arith, update, update-All, Option, none,
}
use async_task_engine.Logger.{LogLevel, LogEntry, enqueue, set_level, flush_begin, stop}
use async_task_engine.Logger.System.{
  Flusher, idle, flushing, System, test, add, begin, leave, drains, Step, tests, logs, sets, begins,
  returns, turns, Reach, start, later,
}
use async_task_engine.Logger.Invariant.{batch_of, Prefix-append, Prefix-self, Waits, Inv, init-Inv}
use async_task_engine.Logger.Turns.{turn-generations, turn-order, turn-Waits}

Inv-suc : (n : ℕ) (s : System) → Inv n s → Inv (suc n) s
Inv-suc n s v = record {
  counted = omega (arith, v.counted);
  done_seen = v.done_seen;
  seen_pending = v.seen_pending;
  order = v.order;
  waits = v.waits;
}

-- A thread's wait is not touched when more is accepted.
Waits-accepted :
    (s : System) (queue more : List LogEntry) (gs : ℕ → Option LogEntry) (f : Flusher)
    → Waits s f
    → Waits
        (record s {
          logger = record s.logger { queue = queue };
          logging = gs;
          accepted = s.accepted ++ more;
        })
        f
Waits-accepted s queue more gs idle w = tt
Waits-accepted s queue more gs (flushing target before closing) w =
    (w.0, Prefix-append before s.accepted more w.1, w.2, w.3)

-- Nor when the pending generation grows or a member that `flush` does not read changes.
Waits-frame :
    (s : System) (m : LogLevel) (b : Bool) (g : ℕ) (fs : ℕ → Flusher) (f : Flusher)
    → s.logger.flush_gen_pending ≤ g
    → Waits s f
    → Waits
        (record s {
          logger = record s.logger { min_level = m; running = b; flush_gen_pending = g };
          flusher = fs;
        })
        f
Waits-frame s m b g fs idle le w = tt
Waits-frame s m b g fs (flushing target before closing) le w = (omega (arith, w.0), w.1, w.2, w.3)

Waits-logging :
    (s : System) (gs : ℕ → Option LogEntry) (f : Flusher)
    → Waits s f
    → Waits (record s { logging = gs }) f
Waits-logging s gs idle w = tt
Waits-logging s gs (flushing target before closing) w = w

test-Inv : (n : ℕ) (s : System) (i : ℕ) (entry : LogEntry) → Inv n s → Inv (suc n) (test s i entry)
test-Inv n s i entry v = record {
  counted = omega (arith, v.counted);
  done_seen = v.done_seen;
  seen_pending = v.seen_pending;
  order = v.order;
  waits = λ j. Waits-logging s (test s i entry).logging (s.flusher j) (v.waits j);
}

add-Inv : (n : ℕ) (s : System) (i : ℕ) (entry : LogEntry) → Inv n s → Inv (suc n) (add s i entry)
unfolding enqueue
add-Inv n s i entry v = record {
  counted = omega (arith, v.counted);
  done_seen = v.done_seen;
  seen_pending = v.seen_pending;
  order = ground (
    arith,
    v.order,
    append_assoc s.written (batch_of s.drain) s.logger.queue,
    append_assoc s.written (batch_of s.drain ++ s.logger.queue) (entry ∷ []),
    append_assoc (batch_of s.drain) s.logger.queue (entry ∷ []),
  );
  waits = λ j.
      Waits-accepted s (s.logger.queue ++ entry ∷ []) (entry ∷ []) (update s.logging i none)
        (s.flusher j) (v.waits j);
}

begin-Inv :
    (n : ℕ) (s : System) (i : ℕ) (closing : Bool)
    → suc n < 2 ^ 64
    → Inv n s
    → Inv (suc n) (begin s i closing)
unfolding flush_begin
begin-Inv n s i closing few v =
    let t = begin s i closing in
    let next : (s.logger.flush_gen_pending + 1) % 2 ^ 64 ≡ s.logger.flush_gen_pending + 1 =
      omega (arith, v.counted) in
    record {
      counted = omega (arith, v.counted);
      done_seen = v.done_seen;
      seen_pending = omega (arith, next, v.seen_pending);
      order = v.order;
      waits =
          update-All (Waits t) s.flusher i (flushing t.logger.flush_gen_pending s.accepted closing)
            (
              omega arith,
              Prefix-self s.accepted,
              (λ le. ground (arith, next, v.seen_pending)),
              λ le. ground (arith, next, v.seen_pending, v.done_seen),
            )
            (λ j.
              Waits-frame s s.logger.min_level s.logger.running t.logger.flush_gen_pending t.flusher
                (s.flusher j) (omega (arith, next)) (v.waits j));
    }

leave-Inv :
    (n : ℕ) (s : System) (i : ℕ) (closing : Bool) → Inv n s → Inv (suc n) (leave s i closing)
unfolding stop
leave-Inv n s i true v =
    let kept = Inv-suc n s v in
    record {
      counted = kept.counted;
      done_seen = v.done_seen;
      seen_pending = v.seen_pending;
      order = v.order;
      waits = update-All (Waits (leave s i true)) s.flusher i idle tt (λ j.
          Waits-frame s s.logger.min_level false s.logger.flush_gen_pending
            (update s.flusher i idle) (s.flusher j) (omega arith) (v.waits j));
    }
leave-Inv n s i false v =
    let kept = Inv-suc n s v in
    record {
      counted = kept.counted;
      done_seen = v.done_seen;
      seen_pending = v.seen_pending;
      order = v.order;
      waits = update-All (Waits (leave s i false)) s.flusher i idle tt (λ j.
          Waits-frame s s.logger.min_level s.logger.running s.logger.flush_gen_pending
            (update s.flusher i idle) (s.flusher j) (omega arith) (v.waits j));
    }

drains-Inv : (n : ℕ) (s : System) → Inv n s → Inv (suc n) (drains s)
drains-Inv n s v =
    let (same, done, pending) = turn-generations s.logger s.drain v.done_seen v.seen_pending in
    record {
      counted = omega (arith, v.counted, same);
      done_seen = done;
      seen_pending = pending;
      order = v.order ∙ sym (turn-order s.logger s.drain s.written);
      waits = λ i.
          turn-Waits s.logger s.drain s.flusher s.logging s.accepted s.written (s.flusher i) v.order
            v.seen_pending (v.waits i);
    }

Step-Inv : {n : ℕ} {s t : System} → suc n < 2 ^ 64 → Step s t → Inv n s → Inv (suc n) t
unfolding set_level
Step-Inv {n} {s} few (tests i entry e) v = test-Inv n s i entry v
Step-Inv {n} {s} few (logs i entry e) v = add-Inv n s i entry v
Step-Inv {n} {s} few (sets level) v = record {
  counted = omega (arith, v.counted);
  done_seen = v.done_seen;
  seen_pending = v.seen_pending;
  order = v.order;
  waits = λ i.
      Waits-frame s level s.logger.running s.logger.flush_gen_pending s.flusher (s.flusher i)
        (omega arith) (v.waits i);
}
Step-Inv {n} {s} few (begins i closing e) v = begin-Inv n s i closing few v
Step-Inv {n} {s} few (returns i target before closing e k) v = leave-Inv n s i closing v
Step-Inv {n} {s} few turns v = drains-Inv n s v

pub Reach-Inv : {m : LogLevel} {n : ℕ} {s : System} → n < 2 ^ 64 → Reach m n s → Inv n s
Reach-Inv {m} few start = init-Inv m
Reach-Inv few (later r st) = Step-Inv few st (Reach-Inv (omega arith) r)
