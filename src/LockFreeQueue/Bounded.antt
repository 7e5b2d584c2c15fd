-- ===== src/LockFreeQueue/Bounded.antt =====
-- include/ate/lockfree_queue.hpp: a bounded queue as a list, the specification of the ring.
use mathlib.Core.Option.{some-injective, none-ne-some}
use async_task_engine.Common.{
  ℕ, suc, ◌≤◌, ◌<◌, ◌≡◌, refl, sym, ap, ◌∙◌, true, List, [], ◌∷◌, ◌++◌, Option, none, some,
  get_elem?, length, arith, append-nil, append_assoc, take, take-append, take-get_elem?, drop,
  drop-append, drop-get_elem?, ltb, ◌==◌, if◌then◌else◌,
}

-- What a step does to the bounded queue.
pub data Event : Type 0 where
  silent : Event
  enqueues dequeues : ℕ → Event

-- The events on a list of at most `capacity` elements: a push adds at the back if there is room,
-- a pop takes the front, which is the value it names. `none` if the list does not allow an event.
abbrev pub accept : ℕ → Event → List ℕ → Option (List ℕ)
accept capacity silent xs = some xs
accept capacity (enqueues v) xs = if ltb (length xs) capacity then some (xs ++ v ∷ []) else none
accept capacity (dequeues v) [] = none
accept capacity (dequeues v) (x ∷ xs) = if v == x then some xs else none

abbrev pub and_then : Option (List ℕ) → (List ℕ → Option (List ℕ)) → Option (List ℕ)
and_then none f = none
and_then (some xs) f = f xs

abbrev pub replay : ℕ → List Event → List ℕ → Option (List ℕ)
replay capacity [] xs = some xs
replay capacity (e ∷ es) xs = and_then (accept capacity e xs) (replay capacity es)

abbrev pub enqueued_by : Event → List ℕ
enqueued_by (enqueues v) = v ∷ []
enqueued_by _ = []

abbrev pub dequeued_by : Event → List ℕ
dequeued_by (dequeues v) = v ∷ []
dequeued_by _ = []

-- The values that went in, and those that came out.
abbrev pub enqueued : List Event → List ℕ
enqueued [] = []
enqueued (e ∷ es) = enqueued_by e ++ enqueued es

abbrev pub dequeued : List Event → List ℕ
dequeued [] = []
dequeued (e ∷ es) = dequeued_by e ++ dequeued es

and_then-some : (o : Option (List ℕ)) → and_then o some ≡ o
and_then-some none = refl
and_then-some (some xs) = refl

and_then-next :
    (o : Option (List ℕ)) (f g : List ℕ → Option (List ℕ)) (ys : List ℕ) (r : Option (List ℕ))
    → ((xs : List ℕ) → f xs ≡ some ys → g xs ≡ r)
    → and_then o f ≡ some ys
    → and_then o g ≡ r
and_then-next none f g ys r k h = elim (none-ne-some ys h) [ ]
and_then-next (some xs) f g ys r k h = k xs h

replay-append :
    (capacity : ℕ) (es : List Event) (e : Event) (xs ys : List ℕ)
    → replay capacity es xs ≡ some ys
    → replay capacity (es ++ e ∷ []) xs ≡ accept capacity e ys
replay-append capacity [] e xs ys h =
    and_then-some (accept capacity e xs) ∙ ap (accept capacity e) (some-injective xs ys h)
replay-append capacity (d ∷ es) e xs ys h =
    and_then-next (accept capacity d xs) (replay capacity es) (replay capacity (es ++ e ∷ [])) ys
      (accept capacity e ys) (λ zs. replay-append capacity es e zs ys) h

enqueued-append :
    (es : List Event) (e : Event) → enqueued (es ++ e ∷ []) ≡ enqueued es ++ enqueued_by e
enqueued-append [] e = append-nil (enqueued_by e)
enqueued-append (d ∷ es) e =
    ap (λ l. enqueued_by d ++ l) (enqueued-append es e)
    ∙ sym (append_assoc (enqueued_by d) (enqueued es) (enqueued_by e))

dequeued-append :
    (es : List Event) (e : Event) → dequeued (es ++ e ∷ []) ≡ dequeued es ++ dequeued_by e
dequeued-append [] e = append-nil (dequeued_by e)
dequeued-append (d ∷ es) e =
    ap (λ l. dequeued_by d ++ l) (dequeued-append es e)
    ∙ sym (append_assoc (dequeued_by d) (dequeued es) (dequeued_by e))

-- What an event does to the log of claims and to `dequeue_pos`.
abbrev pub Recorded : ℕ → List ℕ → ℕ → Event → List ℕ → ℕ → Type 0
Recorded capacity log deq silent log' deq' = (log' ≡ log) × (deq' ≡ deq)
Recorded capacity log deq (enqueues v) log' deq' =
    (length (drop deq log) < capacity) × (log' ≡ log ++ v ∷ []) × (deq' ≡ deq)
Recorded capacity log deq (dequeues x) log' deq' =
    (get_elem? log deq ≡ some x) × (log' ≡ log) × (deq' ≡ suc deq)

-- What an event does to the list, to what went in and to what came out.
Moves : ℕ → List ℕ → ℕ → Event → List ℕ → ℕ → Type 0
Moves capacity log deq e log' deq' =
    (accept capacity e (drop deq log) ≡ some (drop deq' log'))
    × (log ++ enqueued_by e ≡ log')
    × (take deq log ++ dequeued_by e ≡ take deq' log')

Recorded-Moves :
    (capacity : ℕ) (log : List ℕ) (deq : ℕ) (e : Event) (log' : List ℕ) (deq' : ℕ)
    → deq ≤ length log
    → Recorded capacity log deq e log' deq'
    → Moves capacity log deq e log' deq'
unfolding Moves
Recorded-Moves capacity log deq silent log' deq' le (e, f) =
    rw (e, f) (refl, append-nil log, append-nil (take deq log))
Recorded-Moves capacity log deq (enqueues v) log' deq' le (room, e, f) =
    let more : ltb (length (drop deq log)) capacity ≡ true = ground arith in
    rw (e, f, more)
      (
        ap some (sym (drop-append deq log (v ∷ []) le)),
        refl,
        append-nil (take deq log) ∙ sym (take-append deq log (v ∷ []) le),
      )
Recorded-Moves capacity log deq (dequeues x) log' deq' le (head, e, f) =
    let same : (x == x) ≡ true = ground arith in
    rw (e, f, drop-get_elem? deq log x head)
      (rw same refl, append-nil log, sym (take-get_elem? deq log x head))

-- The events so far are those of a bounded queue, which holds what lies between the counters.
pub record Tracks (capacity : ℕ) (es : List Event) (log : List ℕ) (deq : ℕ) : Type 0 where
  pub holds : replay capacity es [] ≡ some (drop deq log)
  pub went_in : enqueued es ≡ log
  pub came_out : dequeued es ≡ take deq log

pub Tracks-event :
    (capacity : ℕ) (es : List Event) (log : List ℕ) (deq : ℕ) (e : Event) (log' : List ℕ) (deq' : ℕ)
    → deq ≤ length log
    → Recorded capacity log deq e log' deq'
    → Tracks capacity es log deq
    → Tracks capacity (es ++ e ∷ []) log' deq'
unfolding Moves
Tracks-event capacity es log deq e log' deq' le r h =
    let (a, b, c) = Recorded-Moves capacity log deq e log' deq' le r in
    record {
      holds = replay-append capacity es e [] (drop deq log) h.holds ∙ a;
      went_in = enqueued-append es e ∙ ap (λ l. l ++ enqueued_by e) h.went_in ∙ b;
      came_out = dequeued-append es e ∙ ap (λ l. l ++ dequeued_by e) h.came_out ∙ c;
    }
