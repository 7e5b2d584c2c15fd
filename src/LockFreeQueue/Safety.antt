-- ===== src/LockFreeQueue/Safety.antt =====
-- include/ate/lockfree_queue.hpp: what holds of a queue that `2 ^ 62` or fewer steps have used.
use Prim.Native.Nat.{Ordering}
use async_task_engine.Common.{
  ℕ, ◌+◌, ◌^◌, ◌≤◌, ◌<◌, ◌≡◌, refl, ap, ◌∙◌, ◌⊎◌, inl, inr, Bool, false, Option, none, some, arith,
  Bool-cases, dec_lt,
}
use async_task_engine.LockFreeQueue.{
  Shape, index, push_branch, pop_branch, Pc, push_seq, push_write, pushed, pop_seq, pop_read,
  popped, turn,
}
use async_task_engine.LockFreeQueue.Capacity.{IsLayout}
use async_task_engine.LockFreeQueue.System.{System, Reach}
use async_task_engine.LockFreeQueue.Invariant.{writing, reading, Owners, IsSlot, Local, Inv}
use async_task_engine.LockFreeQueue.Slots.{same_slot}
use async_task_engine.LockFreeQueue.Reachable.{Reach-Kept, Reach-enqueue, bounds}

-- The position whose slot's data a thread touches in its next step.
abbrev pub touching : Pc → Option ℕ
touching (push_write _ p) = some p
touching (pop_read p) = some p
touching _ = none

push_branch-false : (v p : ℕ) (c : Ordering) → push_branch v p c ≡ pushed false → c ≡ Ordering.lt
unfolding push_branch
push_branch-false v p Ordering.lt e = refl
push_branch-false v p c e = cc

pop_branch-none : (p : ℕ) (c : Ordering) → pop_branch p c ≡ popped none → c ≡ Ordering.lt
unfolding pop_branch
pop_branch-none p Ordering.lt e = refl
pop_branch-none p c e = cc

module _ (q : Shape) (lay : IsLayout q) (s : System) (o : Owners) (inv : Inv q s o) where
  -- A sequence that is behind the position of a push: the slot still serves the lap before.
  behind_push :
      (p : ℕ)
      → s.ring.sequence (index q p) < p
      → p ≤ s.ring.enqueue_pos
      → (p ≡ s.ring.enqueue_pos)
        × ((s.ring.enqueue_pos ≡ s.ring.dequeue_pos + q.capacity)
            ⊎ ((j x : ℕ) × (reading (s.pc j) ≡ some x) × (x + q.capacity ≡ p)))
  behind_push p lt le = (
    omega (arith, lap, here.below),
    elim (Bool-cases (o.full (index q p))) [
      | inl full ↦
          let (lower, got, held) = here.taken full in
          elim held [
            | inl unread ↦ inl (omega (arith, lap, here.below, inv.bounded))
            | inr (j, h) ↦ inr (j, o.at (index q p), h, omega (arith, lap, here.below))
          ]
      | inr free ↦ inl (omega (arith, lap, here.below, inv.bounded, (here.free free).0))
    ],
  )
    where
      here : IsSlot q s o (index q p)
      here = inv.slots p

      lap : o.at (index q p) + q.capacity ≤ p
      lap = same_slot q lay (o.at (index q p)) p here.home (omega (arith, here.seq_at))

  -- A sequence that is not past the position of a pop: nothing has been published there.
  behind_pop :
      (p : ℕ)
      → s.ring.sequence (index q p) < p + 1
      → p ≤ s.ring.dequeue_pos
      → (p ≡ s.ring.dequeue_pos)
        × ((s.ring.enqueue_pos ≡ s.ring.dequeue_pos) ⊎ ((j : ℕ) × (writing (s.pc j) ≡ some p)))
  behind_pop p lt le = elim (dec_lt (o.at (index q p)) p) [
    | yes old ↦
        let lap = same_slot q lay (o.at (index q p)) p here.home old in
        (omega (arith, here.below, inv.ordered), inl (omega (arith, here.below, inv.ordered)))
    | no new ↦
        let on : o.at (index q p) ≡ p = omega (arith, here.seq_at) in
        let free : o.full (index q p) ≡ false = ground (arith, here.seq_at) in
        let (lower, held) = here.free free in
        (
          omega arith,
          elim held [
            | inl unclaimed ↦ inl (omega (arith, inv.ordered))
            | inr (j, h) ↦ inr (j, h ∙ ap some on)
          ],
        )
  ]
    where
      here : IsSlot q s o (index q p)
      here = inv.slots p

module _ (q : Shape) (lay : IsLayout q) (roomy : q.capacity ≤ 2 ^ 62) {k : ℕ} {s : System}
    (r : Reach q k s) (few : k < 2 ^ 62) where
  few' : s.ring.enqueue_pos < 2 ^ 62
  few' = omega (arith, Reach-enqueue q lay roomy r)

  -- Two threads never touch the data of one slot at the same time.
  -- (Capacity at most 2 ^ 62, fewer than 2 ^ 62 steps since the constructor.)
  pub touching-exclusive :
      (i j a b : ℕ)
      → touching (s.pc i) ≡ some a
      → touching (s.pc j) ≡ some b
      → index q a ≡ index q b
      → i ≡ j
  touching-exclusive i j a b ea eb same =
      let (o, inv) = Reach-Kept q lay roomy r (omega arith) in
      meet o inv (s.pc i) (s.pc j) refl refl ea eb (inv.local i) (inv.local j)
    where
      meet :
          (o : Owners) (inv : Inv q s o) (x y : Pc)
          → s.pc i ≡ x
          → s.pc j ≡ y
          → touching x ≡ some a
          → touching y ≡ some b
          → Local q s o x
          → Local q s o y
          → i ≡ j
      meet o inv (push_write u m) y ei ej hx hy lx ly = ground (arith, inv.one_writer i j a)
      meet o inv (pop_read m) y ei ej hx hy lx ly = ground (arith, inv.one_reader i j a)
      meet o inv x y ei ej hx hy lx ly = cc

  -- A push that is about to return `false` has just found the queue full: its position is the
  -- current `enqueue_pos`, and the push of one capacity earlier is still in its slot, so that
  -- either `capacity` positions are claimed and not popped, or a pop has claimed that one and not
  -- yet given the slot back.
  -- (Capacity at most 2 ^ 62, fewer than 2 ^ 62 steps since the constructor.)
  pub push-full :
      (i v p : ℕ) (b : Bool)
      → s.pc i ≡ push_seq v p
      → (turn q b s.ring (s.pc i)).next ≡ pushed false
      → (p ≡ s.ring.enqueue_pos)
        × ((s.ring.enqueue_pos ≡ s.ring.dequeue_pos + q.capacity)
            ⊎ ((j x : ℕ) × (reading (s.pc j) ≡ some x) × (x + q.capacity ≡ p)))
  unfolding turn push_branch
  push-full i v p b at e =
      let (o, inv) = Reach-Kept q lay roomy r (omega arith) in
      let sign = push_branch-false v p _ (rw at at e) in
      let le : p ≤ s.ring.enqueue_pos = rw at at (inv.local i) in
      behind_push q lay s o inv p (ground (arith, bounds q lay roomy s o inv few' p)) le

  -- A pop that is about to return nothing has just found the queue empty: its position is the
  -- current `dequeue_pos`, and no push has claimed it, or the push that has is not done yet.
  -- (Capacity at most 2 ^ 62, fewer than 2 ^ 62 steps since the constructor.)
  pub pop-empty :
      (i p : ℕ) (b : Bool)
      → s.pc i ≡ pop_seq p
      → (turn q b s.ring (s.pc i)).next ≡ popped none
      → (p ≡ s.ring.dequeue_pos)
        × ((s.ring.enqueue_pos ≡ s.ring.dequeue_pos) ⊎ ((j : ℕ) × (writing (s.pc j) ≡ some p)))
  unfolding turn pop_branch
  pop-empty i p b at e =
      let (o, inv) = Reach-Kept q lay roomy r (omega arith) in
      let sign = pop_branch-none p _ (rw at at e) in
      let le : p ≤ s.ring.dequeue_pos = rw at at (inv.local i) in
      behind_pop q lay s o inv p (ground (arith, bounds q lay roomy s o inv few' p, inv.ordered)) le
