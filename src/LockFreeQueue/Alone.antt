-- ===== src/LockFreeQueue/Alone.antt =====
-- include/ate/lockfree_queue.hpp: an operation that runs with no other thread in between, from a
-- state in which no other operation is half done.
use async_task_engine.Common.{
  ℕ, zero, suc, ◌+◌, ◌^◌, ◌≤◌, ◌<◌, ◌≡◌, refl, sym, ◌⊎◌, inl, inr, true, false, none, some,
  get_elem?, arith, Bool-cases,
}
use async_task_engine.LockFreeQueue.{
  Shape, Ring, index, push_branch, pop_branch, Pc, push_load, pushed, pop_load, popped, Turn, turn,
  size_approx,
}
use async_task_engine.LockFreeQueue.Capacity.{IsLayout}
use async_task_engine.LockFreeQueue.System.{System, Reach}
use async_task_engine.LockFreeQueue.Invariant.{writing, reading, Owners, IsSlot, Inv}
use async_task_engine.LockFreeQueue.Slots.{same_slot}
use async_task_engine.LockFreeQueue.Reachable.{Reach-Kept, Reach-enqueue}

-- So many steps of one thread, none of its exchanges failing for no reason.
unfoldable pub run_alone : Shape → ℕ → Ring → Pc → Turn
run_alone q zero r p = record { ring = r; next = p }
run_alone q (suc n) r p = let t = turn q false r p in run_alone q n t.ring t.next

-- No thread holds a slot.
abbrev pub IsQuiet : System → Type 0
IsQuiet s = (i : ℕ) → (writing (s.pc i) ≡ none) × (reading (s.pc i) ≡ none)

module _ (q : Shape) (lay : IsLayout q) (s : System) (o : Owners) (inv : Inv q s o)
    (quiet : IsQuiet s) where
  -- With nobody inside an operation every slot serves a position between the counters, or the one
  -- a capacity later.
  slot_idle :
      (p : ℕ)
      → (s.ring.dequeue_pos ≤ o.at (index q p))
        × (o.full (index q p) ≡ false → s.ring.enqueue_pos ≤ o.at (index q p))
  slot_idle p = elim (Bool-cases (o.full (index q p))) [
    | inl full ↦ (
      elim (here.taken full).2 [ inl le ↦ le | inr (j, h) ↦ absurd (ground (arith, quiet j)) ],
      λ free. absurd (ground arith),
    )
    | inr free ↦ (
      (here.free free).0,
      λ e. elim (here.free free).1 [ inl le ↦ le | inr (j, h) ↦ absurd (ground (arith, quiet j)) ],
    )
  ]
    where
      here : IsSlot q s o (index q p)
      here = inv.slots p

  pub slot_of_push :
      (e : ℕ)
      → e ≡ s.ring.enqueue_pos
      → ((s.ring.sequence (index q e) ≡ e) × (e < s.ring.dequeue_pos + q.capacity))
        ⊎ ((s.ring.sequence (index q e) < e) × (e ≡ s.ring.dequeue_pos + q.capacity))
  slot_of_push e same =
      let here = inv.slots e in
      let idle = slot_idle e in
      let before = same_slot q lay (o.at (index q e)) e here.home in
      let after = same_slot q lay e (o.at (index q e)) (sym here.home) in
      elim (Bool-cases (o.full (index q e))) [
        | inl full ↦ inr (
          ground (arith, here.taken, here.below, here.seq_at, inv.bounded, lay.at_least_two),
          ground (arith, here.taken, here.below, inv.bounded),
        )
        | inr free ↦ inl (
          ground (arith, here.above, here.seq_at, inv.bounded, inv.ordered),
          ground (arith, here.above),
        )
      ]

  pub slot_of_pop :
      (d : ℕ)
      → d ≡ s.ring.dequeue_pos
      → ((s.ring.sequence (index q d) ≡ d + 1)
          × (get_elem? s.claimed d ≡ some (s.ring.value (index q d))))
        ⊎ ((s.ring.sequence (index q d) < d + 1) × (s.ring.enqueue_pos ≡ d))
  slot_of_pop d same =
      let here = inv.slots d in
      let idle = slot_idle d in
      let after = same_slot q lay d (o.at (index q d)) (sym here.home) in
      let on : o.at (index q d) ≡ d = ground (arith, here.above) in
      elim (Bool-cases (o.full (index q d))) [
        | inl full ↦ inl (ground (arith, here.seq_at), ground (arith, here.taken))
        | inr free ↦ inr (ground (arith, here.seq_at), ground (arith, inv.ordered))
      ]

module _ (q : Shape) (r : Ring) (small : r.enqueue_pos < 2 ^ 62) where
  push_succeeds :
      (v : ℕ)
      → r.sequence (index q r.enqueue_pos) ≡ r.enqueue_pos
      → ((run_alone q 5 r (push_load v)).next ≡ pushed true)
        × ((run_alone q 5 r (push_load v)).ring.enqueue_pos ≡ r.enqueue_pos + 1)
  unfolding run_alone turn push_branch
  push_succeeds v e = ground arith

  push_fails :
      (v : ℕ)
      → r.sequence (index q r.enqueue_pos) < r.enqueue_pos
      → run_alone q 2 r (push_load v) ≡ record { ring = r; next = pushed false }
  unfolding run_alone turn push_branch
  push_fails v e = ground arith

  pop_succeeds :
      r.dequeue_pos ≤ r.enqueue_pos
      → r.sequence (index q r.dequeue_pos) ≡ r.dequeue_pos + 1
      → ((run_alone q 5 r pop_load).next ≡ popped (some (r.value (index q r.dequeue_pos))))
        × ((run_alone q 5 r pop_load).ring.dequeue_pos ≡ r.dequeue_pos + 1)
  unfolding run_alone turn pop_branch
  pop_succeeds le e = ground arith

  pop_fails :
      r.dequeue_pos ≤ r.enqueue_pos
      → r.sequence (index q r.dequeue_pos) < r.dequeue_pos + 1
      → run_alone q 2 r pop_load ≡ record { ring = r; next = popped none }
  unfolding run_alone turn pop_branch
  pop_fails le e = ground arith

module _ (q : Shape) (lay : IsLayout q) (roomy : q.capacity ≤ 2 ^ 62) {k : ℕ} {s : System}
    (r : Reach q k s) (few : k < 2 ^ 62) (quiet : IsQuiet s) where
  -- A push alone returns within five steps: `true`, one position further, if the queue is not
  -- full, and else `false` with the queue as it was.
  -- (No other operation half done, capacity at most 2 ^ 62, fewer than 2 ^ 62 steps before.)
  pub push_alone :
      (v : ℕ)
      → ((size_approx s.ring.enqueue_pos s.ring.dequeue_pos < q.capacity)
          × ((run_alone q 5 s.ring (push_load v)).next ≡ pushed true)
          × ((run_alone q 5 s.ring (push_load v)).ring.enqueue_pos ≡ s.ring.enqueue_pos + 1))
        ⊎ ((size_approx s.ring.enqueue_pos s.ring.dequeue_pos ≡ q.capacity)
            × (run_alone q 2 s.ring (push_load v) ≡ record { ring = s.ring; next = pushed false }))
  unfolding size_approx
  push_alone v =
      let (o, inv) = Reach-Kept q lay roomy r (omega arith) in
      let small : s.ring.enqueue_pos < 2 ^ 62 = omega (arith, Reach-enqueue q lay roomy r) in
      elim (slot_of_push q lay s o inv quiet s.ring.enqueue_pos refl) [
        | inl (free, room) ↦
            let done = push_succeeds q s.ring small v free in
            inl (ground (arith, inv.ordered), done.0, done.1)
        | inr (behind, full) ↦ inr (ground (arith, inv.ordered), push_fails q s.ring small v behind)
      ]

  -- A pop alone returns within five steps: the value pushed at the position that it takes, if
  -- there is one, and else nothing, with the queue as it was.
  -- (No other operation half done, capacity at most 2 ^ 62, fewer than 2 ^ 62 steps before.)
  pub pop_alone :
      ((x : ℕ) × (get_elem? s.claimed s.ring.dequeue_pos ≡ some x)
        × ((run_alone q 5 s.ring pop_load).next ≡ popped (some x))
        × ((run_alone q 5 s.ring pop_load).ring.dequeue_pos ≡ s.ring.dequeue_pos + 1))
      ⊎ ((size_approx s.ring.enqueue_pos s.ring.dequeue_pos ≡ 0)
          × (run_alone q 2 s.ring pop_load ≡ record { ring = s.ring; next = popped none }))
  unfolding size_approx
  pop_alone =
      let (o, inv) = Reach-Kept q lay roomy r (omega arith) in
      let small : s.ring.enqueue_pos < 2 ^ 62 = omega (arith, Reach-enqueue q lay roomy r) in
      elim (slot_of_pop q lay s o inv quiet s.ring.dequeue_pos refl) [
        | inl (full, value) ↦
            let done = pop_succeeds q s.ring small inv.ordered full in
            inl (_, value, done.0, done.1)
        | inr (behind, none_left) ↦
            inr (ground (arith, inv.ordered), pop_fails q s.ring small inv.ordered behind)
      ]
