-- ===== src/LockFreeQueue/Fifo.antt =====
-- include/ate/lockfree_queue.hpp: the ring against a bounded queue that is a list. A push takes
-- effect when it wins its exchange, and so does a pop.
use async_task_engine.Common.{
  ℕ, ◌+◌, ◌^◌, ◌≤◌, ◌<◌, ◌≡◌, refl, sym, subst, ◌∙◌, inl, inr, Bool, not, ◌&&◌, List, [], ◌∷◌, ◌++◌,
  some, get_elem?, arith, take, get_elem?-take, drop, length-drop, Bool-cases, ◌==◌,
}
use async_task_engine.LockFreeQueue.{
  word, Shape, Ring, create, index, push_branch, pop_branch, Pc, push_seq, push_cas, push_write,
  pop_seq, pop_cas, pop_read, turn,
}
use async_task_engine.LockFreeQueue.Capacity.{IsLayout}
use async_task_engine.LockFreeQueue.System.{
  System, Step, pushes, pops, moves, Reach, start, later, claim,
}
use async_task_engine.LockFreeQueue.Log.{Has, Faithful}
use async_task_engine.LockFreeQueue.Delivery.{Reach-Exact}
use async_task_engine.LockFreeQueue.Invariant.{Owners, Local, Inv}
use async_task_engine.LockFreeQueue.Reachable.{Reach-Kept, Reach-enqueue}
use async_task_engine.LockFreeQueue.Bounded.{
  Event, silent, enqueues, dequeues, replay, enqueued, dequeued, Recorded, Tracks, Tracks-event,
}

-- The event of a thread that goes from one point to another.
abbrev pub event : Shape → Ring → Pc → Pc → Event
event q r (push_cas _ _) (push_write v _) = enqueues v
event q r (pop_cas p) (pop_read _) = dequeues (r.value (index q p))
event q r _ _ = silent

-- The values of the positions between the counters.
abbrev pub contents : System → List ℕ
contents s = drop s.ring.dequeue_pos s.claimed

module _ (q : Shape) (s : System) (o : Owners) (inv : Inv q s o)
    (small : s.ring.enqueue_pos < 2 ^ 62) (i : ℕ) where
  push_cas-Recorded :
      (v p : ℕ)
      → s.ring.enqueue_pos ≡ p
      → Local q s o (push_cas v p)
      → Recorded q.capacity s.claimed s.ring.dequeue_pos
          (enqueues v)
          (s.claimed ++ v ∷ [])
          s.ring.dequeue_pos
  push_cas-Recorded v p same l =
      let home = (inv.slots p).above in
      (
        ground
            (arith, length-drop s.ring.dequeue_pos s.claimed, inv.counted, inv.ordered, l.1, home),
        refl,
        refl,
      )

  pop_cas-Recorded :
      (p : ℕ)
      → s.ring.dequeue_pos ≡ p
      → Local q s o (pop_cas p)
      → Recorded q.capacity s.claimed s.ring.dequeue_pos
          (dequeues (s.ring.value (index q p)))
          s.claimed
          (word (p + 1))
  pop_cas-Recorded p same l =
      let (at, full) = l.1 (omega (arith, same)) in
      (
        subst (λ n. get_elem? s.claimed n ≡ some (s.ring.value (index q p))) (at ∙ sym same)
            ((inv.slots p).taken full).1,
        refl,
        omega (arith, same, small, inv.ordered),
      )

  turn-Recorded :
      (b : Bool) (p : Pc)
      → s.pc i ≡ p
      → Local q s o p
      → (let t = turn q b s.ring p in
          Recorded q.capacity s.claimed s.ring.dequeue_pos
            (event q s.ring p t.next)
            (claim s.claimed p t.next)
            t.ring.dequeue_pos)
  unfolding turn push_branch pop_branch
  turn-Recorded b (push_seq v p) e l = ground arith
  turn-Recorded b (push_cas v p) e l = elim (Bool-cases (not b && s.ring.enqueue_pos == p)) [
    | inl won ↦ rw won (push_cas-Recorded v p (ground arith) l)
    | inr lost ↦ rw lost (refl, refl)
  ]
  turn-Recorded b (pop_seq p) e l = ground arith
  turn-Recorded b (pop_cas p) e l = elim (Bool-cases (not b && s.ring.dequeue_pos == p)) [
    | inl won ↦ rw won (pop_cas-Recorded p (ground arith) l)
    | inr lost ↦ rw lost (refl, refl)
  ]
  turn-Recorded b p e l = (refl, refl)

Faithful-take :
    (n : ℕ) (claimed : List ℕ) (log : List (ℕ × ℕ))
    → ((p : ℕ) → Has p log → p < n)
    → Faithful claimed log
    → Faithful (take n claimed) log
Faithful-take n claimed [] gone f = tt
Faithful-take n claimed ((a, x) ∷ log) gone f = (
  get_elem?-take n a claimed (gone a (inl refl)) ∙ f.0,
  Faithful-take n claimed log (λ p h. gone p (inr h)) f.1,
)

module _ (q : Shape) where
  -- What the exchanges of an interleaving do, in the order in which they are won.
  abbrev pub step_event : {s t : System} → Step q s t → Event
  step_event (pushes i v e) = silent
  step_event (pops i e) = silent
  step_event {s = s} (moves i b) = event q s.ring (s.pc i) (turn q b s.ring (s.pc i)).next

  abbrev pub history : {k : ℕ} {s : System} → Reach q k s → List Event
  history start = []
  history (later r st) = history r ++ step_event st ∷ []

module _ (q : Shape) (lay : IsLayout q) (roomy : q.capacity ≤ 2 ^ 62) where
  Step-Tracks :
      {k : ℕ} {s t : System} {es : List Event}
      → Reach q k s
      → k < 2 ^ 62
      → (st : Step q s t) → Tracks q.capacity es s.claimed s.ring.dequeue_pos
      → Tracks q.capacity (es ++ step_event q st ∷ []) t.claimed t.ring.dequeue_pos
  Step-Tracks {s = s} {es = es} r few (pushes i v e) h =
      let (o, inv) = Reach-Kept q lay roomy r (omega arith) in
      Tracks-event q.capacity es s.claimed s.ring.dequeue_pos silent s.claimed s.ring.dequeue_pos
        (omega (arith, inv.ordered, inv.counted)) (refl, refl) h
  Step-Tracks {s = s} {es = es} r few (pops i e) h =
      let (o, inv) = Reach-Kept q lay roomy r (omega arith) in
      Tracks-event q.capacity es s.claimed s.ring.dequeue_pos silent s.claimed s.ring.dequeue_pos
        (omega (arith, inv.ordered, inv.counted)) (refl, refl) h
  Step-Tracks {s = s} {es = es} r few (moves i b) h =
      let (o, inv) = Reach-Kept q lay roomy r (omega arith) in
      let t = turn q b s.ring (s.pc i) in
      Tracks-event q.capacity es s.claimed s.ring.dequeue_pos (event q s.ring (s.pc i) t.next)
        (claim s.claimed (s.pc i) t.next) t.ring.dequeue_pos
        (omega (arith, inv.ordered, inv.counted))
        (turn-Recorded q s o inv (omega (arith, Reach-enqueue q lay roomy r)) i b (s.pc i) refl
          (inv.local i))
        h

  Reach-Tracks :
      {k : ℕ} {s : System} (r : Reach q k s)
      → k < 2 ^ 62
      → Tracks q.capacity (history q r) s.claimed s.ring.dequeue_pos
  unfolding create
  Reach-Tracks start few = record { holds = refl; went_in = refl; came_out = refl }
  Reach-Tracks (later r st) few = Step-Tracks r (omega arith) st (Reach-Tracks r (omega arith))

  -- Whatever the threads do, the ring is a bounded queue. Take the exchanges that were won, in their
  -- order: a push that wins adds its value, and a pop that wins takes the value that its slot then
  -- holds. A list of at most `capacity` elements that starts empty allows each of these events (at a
  -- push there is room, and each pop takes the value at the front), and after them it holds the
  -- values between the two counters. The values of the pushes are the claimed ones, and each pop that
  -- returned, at position `p`, returned the value that left the list as the `p`-th.
  -- (Capacity at most 2 ^ 62, fewer than 2 ^ 62 steps since the constructor.)
  pub Reach-refines :
      {k : ℕ} {s : System} (r : Reach q k s)
      → k < 2 ^ 62
      → (replay q.capacity (history q r) [] ≡ some (contents s))
        × (enqueued (history q r) ≡ s.claimed)
        × Faithful (dequeued (history q r)) s.delivered
  Reach-refines {s = s} r few =
      let h = Reach-Tracks r few in
      let x = Reach-Exact q lay roomy r few in
      (
        h.holds,
        h.went_in,
        subst (λ l. Faithful l s.delivered) (sym h.came_out)
            (Faithful-take s.ring.dequeue_pos s.claimed s.delivered (λ p g. (x.gone p g).0)
              x.faithful),
      )
