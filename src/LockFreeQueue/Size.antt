-- ===== src/LockFreeQueue/Size.antt =====
-- include/ate/lockfree_queue.hpp: `size_approx`, whose two loads other threads may come between.
use async_task_engine.Common.{ℕ, suc, ◌+◌, ◌^◌, ◌≤◌, ◌<◌, ◌≡◌, sym, subst, arith, Bool}
use async_task_engine.LockFreeQueue.{Shape, Ring, Pc, push_cas, pop_cas, turn, size_approx}
use async_task_engine.LockFreeQueue.Capacity.{IsLayout}
use async_task_engine.LockFreeQueue.System.{
  System, Step, pushes, pops, moves, Reach, later, Steps, none_yet, further,
}
use async_task_engine.LockFreeQueue.Reachable.{Reach-Kept, Reach-enqueue}

pub turn-dequeue :
    (q : Shape) (b : Bool) (r : Ring) (p : Pc)
    → r.dequeue_pos < 2 ^ 62
    → r.dequeue_pos ≤ (turn q b r p).ring.dequeue_pos
unfolding turn
turn-dequeue q b r (push_cas v p) small = ground arith
turn-dequeue q b r (pop_cas p) small = ground arith
turn-dequeue q b r p small = ground arith

pub Step-dequeue :
    {q : Shape} {s t : System}
    → s.ring.dequeue_pos < 2 ^ 62
    → Step q s t
    → s.ring.dequeue_pos ≤ t.ring.dequeue_pos
Step-dequeue small (pushes i v e) = omega arith
Step-dequeue small (pops i e) = omega arith
Step-dequeue {q} {s} small (moves i b) = turn-dequeue q b s.ring (s.pc i) small

Steps-Reach : {q : Shape} {k j : ℕ} {s t : System} → Reach q k s → Steps q j s t → Reach q (j + k) t
Steps-Reach {q} {k} r (none_yet s) =
    let same : 0 + k ≡ k = omega arith in subst (λ n. Reach q n s) (sym same) r
Steps-Reach {q} {k} {j = suc j} {t = t} r (further st last) =
    let moved : suc j + k ≡ suc (j + k) = omega arith in
    subst (λ n. Reach q n t) (sym moved) (later (Steps-Reach r st) last)

module _ (q : Shape) (lay : IsLayout q) (roomy : q.capacity ≤ 2 ^ 62) where
  Reach-dequeue : {k : ℕ} {s : System} → Reach q k s → k < 2 ^ 62 → s.ring.dequeue_pos < 2 ^ 62
  Reach-dequeue r few =
      let (o, inv) = Reach-Kept q lay roomy r (omega arith) in
      omega (arith, inv.ordered, Reach-enqueue q lay roomy r)

  Steps-dequeue :
      {k j : ℕ} {s t : System}
      → Reach q k s
      → Steps q j s t
      → j + k < 2 ^ 62
      → s.ring.dequeue_pos ≤ t.ring.dequeue_pos
  Steps-dequeue r (none_yet s) few = omega arith
  Steps-dequeue r (further st last) few = omega (
    arith,
    Steps-dequeue r st (omega arith),
    Step-dequeue (Reach-dequeue (Steps-Reach r st) (omega arith)) last,
  )

  -- However many steps other threads make between its two loads, `size_approx` returns at most the
  -- capacity and at most the number of elements at the first load, and each position that was
  -- claimed by a push at the first load is counted or claimed by a pop at the second.
  -- (Capacity at most 2 ^ 62, fewer than 2 ^ 62 steps since the constructor.)
  pub size_approx_bounds :
      {k j : ℕ} {s t : System}
      → Reach q k s
      → Steps q j s t
      → j + k < 2 ^ 62
      → (let n = size_approx s.ring.enqueue_pos t.ring.dequeue_pos in
          (n ≤ q.capacity)
          × (s.ring.dequeue_pos + n ≤ s.ring.enqueue_pos)
          × (s.ring.enqueue_pos ≤ t.ring.dequeue_pos + n))
  unfolding size_approx
  size_approx_bounds r st few =
      let (o, inv) = Reach-Kept q lay roomy r (omega arith) in
      let grown = Steps-dequeue r st few in ground (arith, inv.ordered, inv.bounded)
