-- ===== src/LockFreeQueue/PopProgress.antt =====
-- include/ate/lockfree_queue.hpp: how long a pop can be held up by other threads.
use async_task_engine.Common.{
  ℕ, ◌+◌, ◌-◌, ◌^◌, ◌≤◌, ◌<◌, ◌≡◌, refl, sym, ap, subst, ◌⊎◌, inl, inr, Bool, true, false, arith,
  ◌==◌, if◌then◌else◌, dec_lt, weight, update-at,
}
use async_task_engine.LockFreeQueue.{
  Shape, index, push_branch, pop_branch, Pc, idle, pop_load, pop_seq, pop_cas, pop_read,
  pop_release, popped, turn,
}
use async_task_engine.LockFreeQueue.Capacity.{IsLayout}
use async_task_engine.LockFreeQueue.System.{System, Reach}
use async_task_engine.LockFreeQueue.Invariant.{Owners, Local, Inv}
use async_task_engine.LockFreeQueue.Slots.{same_slot}
use async_task_engine.LockFreeQueue.Reachable.{Reach-Kept, Reach-enqueue}
use async_task_engine.LockFreeQueue.Size.{turn-dequeue, Step-dequeue}
use async_task_engine.LockFreeQueue.Progress.{Competes, alone_yet, own, other, Competes-Reach}

-- The turns that a pop needs at most while `dequeue_pos` stays where it is; more for a thread that
-- is not in a pop.
abbrev pub pop_rank : ℕ → Pc → ℕ
pop_rank deq idle = 0
pop_rank deq (popped o) = 1
pop_rank deq (pop_release p x) = 2
pop_rank deq (pop_read p) = 3
pop_rank deq (pop_cas p) = if p == deq then 4 else 6
pop_rank deq (pop_seq p) = if p == deq then 5 else 7
pop_rank deq pop_load = 6
pop_rank deq p = 8

weight-le : (b : Bool) → weight b ≤ 1
weight-le true = omega arith
weight-le false = omega arith

module _ (q : Shape) (lay : IsLayout q) (s : System) (o : Owners) (inv : Inv q s o)
    (small : s.ring.dequeue_pos < 2 ^ 62) where
  -- The slot of the current position is full for it or serves an earlier position.
  seq_of_front : s.ring.sequence (index q s.ring.dequeue_pos) ≤ s.ring.dequeue_pos + 1
  seq_of_front =
      let here = inv.slots s.ring.dequeue_pos in
      let owner = o.at (index q s.ring.dequeue_pos) in
      elim (dec_lt s.ring.dequeue_pos owner) [
        | yes later_lap ↦
            let lap = same_slot q lay s.ring.dequeue_pos owner (sym here.home) later_lap in
            let bad : ⊥ = omega (arith, lap, here.above) in elim bad [ ]
        | no not_later ↦
            omega (arith, here.seq_at, not_later, weight-le (o.full (index q s.ring.dequeue_pos)))
      ]

  turn-pop_rank :
      (p : Pc)
      → Local q s o p
      → pop_rank s.ring.dequeue_pos p ≤ 7
      → (turn q false s.ring p).ring.dequeue_pos ≡ s.ring.dequeue_pos
      → pop_rank s.ring.dequeue_pos (turn q false s.ring p).next ≤ pop_rank s.ring.dequeue_pos p - 1
  unfolding turn push_branch pop_branch
  turn-pop_rank idle l le same = ground arith
  turn-pop_rank pop_load l le same = ground arith
  turn-pop_rank (pop_seq p) l le same = ground (arith, seq_of_front)
  turn-pop_rank (pop_cas p) l le same = ground arith
  turn-pop_rank (pop_read p) l le same = ground arith
  turn-pop_rank (pop_release p x) l le same = ground arith
  turn-pop_rank (popped v) l le same = ground arith
  turn-pop_rank p l le same = ground arith

pop_rank-zero : (deq : ℕ) (p : Pc) → pop_rank deq p ≤ 0 → p ≡ idle
pop_rank-zero deq idle le = refl
pop_rank-zero deq (pop_cas p) le = ground arith
pop_rank-zero deq (pop_seq p) le = ground arith
pop_rank-zero deq p le = absurd (omega arith)

module _ (q : Shape) (lay : IsLayout q) (roomy : q.capacity ≤ 2 ^ 62) (i : ℕ) where
  Competes-rank :
      {k m j : ℕ} {s t : System}
      → Reach q k s
      → Competes q i m j s t
      → j + k < 2 ^ 62
      → pop_rank s.ring.dequeue_pos (s.pc i) ≤ 7
      → (s.ring.dequeue_pos ≤ t.ring.dequeue_pos)
        × (t.ring.dequeue_pos ≡ s.ring.dequeue_pos
            → pop_rank s.ring.dequeue_pos (t.pc i) ≤ pop_rank s.ring.dequeue_pos (s.pc i) - m)
  Competes-rank r (alone_yet s) few le = (omega arith, λ e. omega arith)
  Competes-rank {s = s} r (own {m} {j} {t = t} c) few le =
      let (grown, ranked) = Competes-rank r c (omega arith) le in
      let reach = Competes-Reach q lay roomy i r c in
      let small = Reach-enqueue q lay roomy reach in
      let (o, inv) = Reach-Kept q lay roomy reach (omega arith) in
      let grows = turn-dequeue q false t.ring (t.pc i) (omega (arith, small, few, inv.ordered)) in
      (
        omega (arith, grown, grows),
        λ e.
            let same : t.ring.dequeue_pos ≡ s.ring.dequeue_pos = omega (arith, grown, grows, e) in
            let before = ranked same in
            let here =
              ap (pop_rank s.ring.dequeue_pos)
                (update-at t.pc i (turn q false t.ring (t.pc i)).next i refl) in
            let step =
              subst
                (λ n.
                  pop_rank n (t.pc i) ≤ 7
                  → (turn q false t.ring (t.pc i)).ring.dequeue_pos ≡ n
                  → pop_rank n (turn q false t.ring (t.pc i)).next ≤ pop_rank n (t.pc i) - 1)
                same
                (turn-pop_rank q lay t o inv (omega (arith, small, few, inv.ordered)) (t.pc i)
                  (inv.local i))
                (omega (arith, before, le)) e in
            omega (arith, here, step, before),
      )
  Competes-rank {s = s} r (other {m} {j} {t = t} {u = u} c st stays) few le =
      let (grown, ranked) = Competes-rank r c (omega arith) le in
      let reach = Competes-Reach q lay roomy i r c in
      let small = Reach-enqueue q lay roomy reach in
      let low = (Reach-Kept q lay roomy reach (omega arith)).1.ordered in
      let grows = Step-dequeue (omega (arith, small, few, low)) st in
      let here = ap (pop_rank s.ring.dequeue_pos) stays in
      (
        omega (arith, grown, grows),
        λ e. let before = ranked (omega (arith, grown, grows, e)) in omega (arith, here, before),
      )

  -- `try_pop` is lock-free: if a thread makes seven steps of it, whatever the others do in between,
  -- it has returned, or some pop, its own or another, has won its exchange meanwhile. (No spurious failure of its exchange; capacity at most 2 ^ 62, fewer than 2 ^ 62 steps
  -- since the constructor.)
  pub pop_lock_free :
      {k j : ℕ} {s t : System} (m : ℕ)
      → Reach q k s
      → Competes q i m j s t
      → j + k < 2 ^ 62
      → pop_rank s.ring.dequeue_pos (s.pc i) ≤ 7
      → 7 ≤ m
      → (t.pc i ≡ idle) ⊎ (s.ring.dequeue_pos < t.ring.dequeue_pos)
  pop_lock_free {s = s} {t = t} m r c few le enough =
      let (grown, ranked) = Competes-rank r c few le in
      elim (dec_lt s.ring.dequeue_pos t.ring.dequeue_pos) [
        | yes won ↦ inr won
        | no none_won ↦ inl (
            pop_rank-zero s.ring.dequeue_pos (t.pc i)
              (omega (arith, le, enough, ranked (omega (arith, grown, none_won)))))
      ]
