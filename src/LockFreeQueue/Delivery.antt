-- ===== src/LockFreeQueue/Delivery.antt =====
-- include/ate/lockfree_queue.hpp: what the pops return, against what was pushed at each position.
use async_task_engine.Common.{
  ℕ, ◌+◌, ◌^◌, ◌≤◌, ◌<◌, ◌≡◌, ◌≢◌, refl, sym, ap, ◌⊎◌, inl, inr, Bool, not, ◌&&◌, some, arith,
  Bool-cases, ℕ_discrete, ◌==◌,
}
use async_task_engine.LockFreeQueue.{
  word, Shape, Ring, create, push_branch, pop_branch, Pc, idle, push_load, push_seq, push_cas,
  pop_load, pop_seq, pop_cas, pop_read, pop_release, popped, Turn, turn,
}
use async_task_engine.LockFreeQueue.Capacity.{IsLayout}
use async_task_engine.LockFreeQueue.System.{
  System, Step, pushes, pops, moves, Reach, start, later, claim, deliver, commit,
}
use async_task_engine.LockFreeQueue.Invariant.{reading, Owners, Local, Inv}
use async_task_engine.LockFreeQueue.Log.{
  Has, Faithful, Distinct, Has-append, append-Has, append-Distinct, append-Faithful, Faithful-claim,
}
use async_task_engine.LockFreeQueue.Reachable.{Reach-Kept, Reach-enqueue}

pub record Exact (s : System) : Type 0 where
  pub faithful : Faithful s.claimed s.delivered
  pub distinct : Distinct s.delivered
  pub gone :
      (p : ℕ) → Has p s.delivered → (p < s.ring.dequeue_pos) × ((i : ℕ) → reading (s.pc i) ≢ some p)
  pub none_lost :
      (p : ℕ) → p < s.ring.dequeue_pos → Has p s.delivered ⊎ ((i : ℕ) × (reading (s.pc i) ≡ some p))

module _ (s : System) (x : Exact s) (i : ℕ) where
  -- A step that delivers nothing and does not change what the thread reads.
  quiet :
      (p : Pc) (t : Turn)
      → reading t.next ≡ reading (s.pc i)
      → t.ring.dequeue_pos ≡ s.ring.dequeue_pos
      → deliver s.delivered p ≡ s.delivered
      → Faithful (claim s.claimed p t.next) s.delivered
      → Exact (commit s i p t)
  quiet p t same still mute faithful = record {
    faithful = rw mute faithful;
    distinct = rw mute x.distinct;
    gone = λ r h.
        let h' : Has r s.delivered = rw mute at h in
        let (lt, unread) = x.gone r h' in (rw still lt, λ j e. ground (arith, unread j));
    none_lost = λ r lt. elim (x.none_lost r (rw still at lt)) [
      | inl h ↦ inl (rw mute h)
      | inr (j, e) ↦ inr (j, ground arith)
    ];
  }

  claimed_pop :
      (p : ℕ)
      → s.pc i ≡ pop_cas p
      → s.ring.dequeue_pos ≡ p
      → p < 2 ^ 62
      → Exact (
          commit s i
            (pop_cas p)
            (record { ring = record s.ring { dequeue_pos = word (p + 1) }; next = pop_read p }))
  claimed_pop p at same small = record {
    faithful = x.faithful;
    distinct = x.distinct;
    gone = λ r h. let (lt, unread) = x.gone r h in (ground arith, λ j e. ground (arith, unread j));
    none_lost = λ r lt. elim (ℕ_discrete p r) [
      | yes e ↦ inr (i, ground arith)
      | no ne ↦ elim (x.none_lost r (ground arith)) [
        | inl h ↦ inl h
        | inr (j, e) ↦ inr (j, ground arith)
      ]
    ];
  }

  delivered_pop :
      (q : Shape) (o : Owners) (inv : Inv q s o) (p v : ℕ) (ring : Ring)
      → s.pc i ≡ pop_release p v
      → ring.dequeue_pos ≡ s.ring.dequeue_pos
      → Local q s o (pop_release p v)
      → Exact (commit s i (pop_release p v) (record { ring = ring; next = popped (some v) }))
  delivered_pop q o inv p v ring at still l =
      let fresh : ¬ Has p s.delivered = λ h. (x.gone p h).1 i (ap reading at) in
      record {
        faithful = append-Faithful s.claimed p v s.delivered l.2 x.faithful;
        distinct = append-Distinct p v s.delivered fresh x.distinct;
        gone = λ r h. elim (Has-append r p v s.delivered h) [
          | inl old ↦
              let (lt, unread) = x.gone r old in (rw still lt, λ j e. ground (arith, unread j))
          | inr new ↦ (ground arith, λ j e. ground (arith, inv.one_reader i j p))
        ];
        none_lost = λ r lt. elim (x.none_lost r (rw still at lt)) [
          | inl h ↦ inl (append-Has r p v s.delivered (inl h))
          | inr (j, e) ↦ elim (ℕ_discrete i j) [
            | yes me ↦ inl (append-Has r p v s.delivered (inr (ground arith)))
            | no other ↦ inr (j, ground arith)
          ]
        ];
      }

module _ (q : Shape) (s : System) (o : Owners) (inv : Inv q s o)
    (small : s.ring.enqueue_pos < 2 ^ 62) (x : Exact s) where
  module _ (i : ℕ) where
    turn-Exact :
        (b : Bool) (p : Pc) → s.pc i ≡ p → Local q s o p → Exact (commit s i p (turn q b s.ring p))
    unfolding turn push_branch pop_branch
    turn-Exact b (push_seq v p) e l =
        quiet s x i (push_seq v p) (turn q b s.ring (push_seq v p)) (ground arith) refl refl
          x.faithful
    turn-Exact b (push_cas v p) e l = elim (Bool-cases (not b && s.ring.enqueue_pos == p)) [
      | inl won ↦ rw won (
          quiet s x i (push_cas v p) _ (sym (ap reading e)) refl refl (
            Faithful-claim s.claimed v s.delivered
              (λ r h. ground (arith, (x.gone r h).0, inv.ordered, inv.counted)) x.faithful))
      | inr lost ↦ rw lost (quiet s x i (push_cas v p) _ (sym (ap reading e)) refl refl x.faithful)
    ]
    turn-Exact b (pop_seq p) e l =
        quiet s x i (pop_seq p) (turn q b s.ring (pop_seq p)) (ground arith) refl refl x.faithful
    turn-Exact b (pop_cas p) e l = elim (Bool-cases (not b && s.ring.dequeue_pos == p)) [
      | inl won ↦ rw won (claimed_pop s x i p e (ground arith) (ground (arith, inv.ordered)))
      | inr lost ↦ rw lost (quiet s x i (pop_cas p) _ (sym (ap reading e)) refl refl x.faithful)
    ]
    turn-Exact b (pop_release p v) e l = delivered_pop s x i q o inv p v _ e refl l
    turn-Exact b p e l = quiet s x i p (turn q b s.ring p) (sym (ap reading e)) refl refl x.faithful

  Step-Exact : {t : System} → Step q s t → Exact t
  Step-Exact (pushes i v e) =
      quiet s x i idle (record { ring = s.ring; next = push_load v }) (sym (ap reading e)) refl refl
        x.faithful
  Step-Exact (pops i e) =
      quiet s x i idle (record { ring = s.ring; next = pop_load }) (sym (ap reading e)) refl refl
        x.faithful
  Step-Exact (moves i b) = turn-Exact i b (s.pc i) refl (inv.local i)

module _ (q : Shape) (lay : IsLayout q) (roomy : q.capacity ≤ 2 ^ 62) where
  pub Reach-Exact : {k : ℕ} {s : System} → Reach q k s → k < 2 ^ 62 → Exact s
  unfolding create
  Reach-Exact start few = record {
    faithful = tt;
    distinct = tt;
    gone = λ p h. absurd h;
    none_lost = λ p lt. absurd (omega arith);
  }
  Reach-Exact (later {s = s} r st) few =
      let (o, inv) = Reach-Kept q lay roomy r (omega arith) in
      Step-Exact q s o inv (omega (arith, Reach-enqueue q lay roomy r))
        (Reach-Exact r (omega arith)) st

  -- The queue is FIFO and exact: whatever the threads did, each value that a pop has returned is
  -- the one that was pushed at the position that the pop claimed, no position has been returned
  -- twice, and every position below `dequeue_pos` has been returned or is held by the pop that
  -- claimed it. Positions are numbered in the order in which the pushes claimed them.
  -- (Capacity at most 2 ^ 62, fewer than 2 ^ 62 steps since the constructor.)
  pub delivery :
      {k : ℕ} {s : System}
      → Reach q k s
      → k < 2 ^ 62
      → Faithful s.claimed s.delivered
        × Distinct s.delivered
        × ((p : ℕ)
            → p < s.ring.dequeue_pos
            → Has p s.delivered ⊎ ((i : ℕ) × (reading (s.pc i) ≡ some p)))
  delivery r few = let x = Reach-Exact r few in (x.faithful, x.distinct, x.none_lost)
