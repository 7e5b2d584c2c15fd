-- ===== src/LockFreeQueue/Invariant.antt =====
-- include/ate/lockfree_queue.hpp: who owns which slot. Each slot serves one position at a time:
-- it is free for the push of that position, or full for its pop.
use async_task_engine.Common.{
  ℕ, ◌+◌, ◌≤◌, ◌<◌, ◌≡◌, ◌⊎◌, Bool, true, false, Option, none, some, weight, get_elem?, length,
}
use async_task_engine.LockFreeQueue.{
  Shape, index, Pc, push_seq, push_cas, push_write, push_release, pop_seq, pop_cas, pop_read,
  pop_release,
}
use async_task_engine.LockFreeQueue.System.{System}

-- The position whose slot a thread is about to fill, or to empty.
abbrev pub writing : Pc → Option ℕ
writing (push_write _ p) = some p
writing (push_release p) = some p
writing _ = none

abbrev pub reading : Pc → Option ℕ
reading (pop_read p) = some p
reading (pop_release p _) = some p
reading _ = none

-- What the slots serve: the position at each index, and whether it is full.
pub record Owners : Type 0 where
  pub at : ℕ → ℕ
  pub full : ℕ → Bool

module _ (q : Shape) (s : System) (o : Owners) where
  abbrev enq : ℕ
  enq = s.ring.enqueue_pos

  abbrev deq : ℕ
  deq = s.ring.dequeue_pos

  abbrev pub Held : (Pc → Option ℕ) → ℕ → Type 0
  Held holding p = (i : ℕ) × (holding (s.pc i) ≡ some p)

  -- The slot at index `j`.
  pub record IsSlot (j : ℕ) : Type 0 where
    pub home : index q (o.at j) ≡ j
    pub seq_at : s.ring.sequence j ≡ o.at j + weight (o.full j)
    pub above : o.at j < s.ring.dequeue_pos + q.capacity
    pub below : s.ring.enqueue_pos ≤ o.at j + q.capacity
    pub free :
        o.full j ≡ false
        → (s.ring.dequeue_pos ≤ o.at j) × ((s.ring.enqueue_pos ≤ o.at j) ⊎ Held writing (o.at j))
    pub taken :
        o.full j ≡ true
        → (o.at j < s.ring.enqueue_pos)
          × (get_elem? s.claimed (o.at j) ≡ some (s.ring.value j))
          × ((s.ring.dequeue_pos ≤ o.at j) ⊎ Held reading (o.at j))

  abbrev pub IsFree : ℕ → Type 0
  IsFree p = (o.at (index q p) ≡ p) × (o.full (index q p) ≡ false)

  abbrev pub IsFull : ℕ → Type 0
  IsFull p = (o.at (index q p) ≡ p) × (o.full (index q p) ≡ true)

  -- What the locals of a thread say.
  abbrev pub Local : Pc → Type 0
  Local (push_seq _ p) = p ≤ s.ring.enqueue_pos
  Local (push_cas _ p) = (p ≤ s.ring.enqueue_pos) × (s.ring.enqueue_pos ≤ p → IsFree p)
  Local (push_write v p) = (p < s.ring.enqueue_pos) × IsFree p × (get_elem? s.claimed p ≡ some v)
  Local (push_release p) =
      (p < s.ring.enqueue_pos)
      × IsFree p
      × (get_elem? s.claimed p ≡ some (s.ring.value (index q p)))
  Local (pop_seq p) = p ≤ s.ring.dequeue_pos
  Local (pop_cas p) = (p ≤ s.ring.dequeue_pos) × (s.ring.dequeue_pos ≤ p → IsFull p)
  Local (pop_read p) = (p < s.ring.dequeue_pos) × IsFull p
  Local (pop_release p x) = (p < s.ring.dequeue_pos) × IsFull p × (get_elem? s.claimed p ≡ some x)
  Local _ = Unit {0}

  pub record Inv : Type 0 where
    pub ordered : s.ring.dequeue_pos ≤ s.ring.enqueue_pos
    pub bounded : s.ring.enqueue_pos ≤ s.ring.dequeue_pos + q.capacity
    pub counted : length s.claimed ≡ s.ring.enqueue_pos
    pub slots : (p : ℕ) → IsSlot (index q p)
    pub local : (i : ℕ) → Local (s.pc i)
    pub one_writer : (i j p : ℕ) → writing (s.pc i) ≡ some p → writing (s.pc j) ≡ some p → i ≡ j
    pub one_reader : (i j p : ℕ) → reading (s.pc i) ≡ some p → reading (s.pc j) ≡ some p → i ≡ j
