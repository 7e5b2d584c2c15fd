-- ===== src/LockFreeQueue/Progress.antt =====
-- include/ate/lockfree_queue.hpp: how long a push can be held up by other threads.
use async_task_engine.Common.{
  ℕ, suc, ◌+◌, ◌-◌, ◌^◌, ◌≤◌, ◌<◌, ◌≡◌, refl, sym, ap, subst, ◌⊎◌, inl, inr, Bool, false, arith,
  ◌==◌, if◌then◌else◌, Bool-cases, dec_lt, weight, update-at,
}
use async_task_engine.LockFreeQueue.{
  Shape, Ring, index, push_branch, pop_branch, Pc, idle, push_load, push_seq, push_cas, push_write,
  push_release, pushed, pop_cas, turn,
}
use async_task_engine.LockFreeQueue.Capacity.{IsLayout}
use async_task_engine.LockFreeQueue.System.{System, Step, pushes, pops, moves, commit, Reach, later}
use async_task_engine.LockFreeQueue.Invariant.{Owners, Local, Inv}
use async_task_engine.LockFreeQueue.Slots.{same_slot}
use async_task_engine.LockFreeQueue.Reachable.{Reach-Kept, Reach-enqueue}

-- The turns that a push needs at most while `enqueue_pos` stays where it is; more for a thread that
-- is not in a push.
abbrev pub push_rank : ℕ → Pc → ℕ
push_rank enq idle = 0
push_rank enq (pushed b) = 1
push_rank enq (push_release p) = 2
push_rank enq (push_write v p) = 3
push_rank enq (push_cas v p) = if p == enq then 4 else 6
push_rank enq (push_seq v p) = if p == enq then 5 else 7
push_rank enq (push_load v) = 6
push_rank enq p = 8

module _ (q : Shape) (lay : IsLayout q) (s : System) (o : Owners) (inv : Inv q s o)
    (small : s.ring.enqueue_pos < 2 ^ 62) where
  -- The slot of the current position is free for it or serves an earlier lap.
  not_ahead : s.ring.sequence (index q s.ring.enqueue_pos) ≤ s.ring.enqueue_pos
  not_ahead =
      let here = inv.slots s.ring.enqueue_pos in
      let owner = o.at (index q s.ring.enqueue_pos) in
      elim (Bool-cases (o.full (index q s.ring.enqueue_pos))) [
        | inl full ↦
            let one = ap weight full in omega (arith, here.seq_at, one, (here.taken full).0)
        | inr free ↦
            let none_more = ap weight free in
            elim (dec_lt s.ring.enqueue_pos owner) [
              | yes later_lap ↦
                  let lap = same_slot q lay s.ring.enqueue_pos owner (sym here.home) later_lap in
                  let bad : ⊥ = omega (arith, lap, here.above, inv.ordered) in elim bad [ ]
              | no not_later ↦ omega (arith, here.seq_at, none_more, not_later)
            ]
      ]

  turn-push_rank :
      (p : Pc)
      → Local q s o p
      → push_rank s.ring.enqueue_pos p ≤ 7
      → (turn q false s.ring p).ring.enqueue_pos ≡ s.ring.enqueue_pos
      → push_rank s.ring.enqueue_pos (turn q false s.ring p).next
        ≤ push_rank s.ring.enqueue_pos p - 1
  unfolding turn push_branch pop_branch
  turn-push_rank idle l le same = ground arith
  turn-push_rank (push_load v) l le same = ground arith
  turn-push_rank (push_seq v p) l le same = ground (arith, not_ahead)
  turn-push_rank (push_cas v p) l le same = ground arith
  turn-push_rank (push_write v p) l le same = ground arith
  turn-push_rank (push_release p) l le same = ground arith
  turn-push_rank (pushed b) l le same = ground arith
  turn-push_rank p l le same = ground arith

push_rank-zero : (enq : ℕ) (p : Pc) → push_rank enq p ≤ 0 → p ≡ idle
push_rank-zero enq idle le = refl
push_rank-zero enq (push_cas v p) le = ground arith
push_rank-zero enq (push_seq v p) le = ground arith
push_rank-zero enq p le = absurd (omega arith)

turn-enqueue_grows :
    (q : Shape) (b : Bool) (r : Ring) (p : Pc)
    → r.enqueue_pos < 2 ^ 62
    → r.enqueue_pos ≤ (turn q b r p).ring.enqueue_pos
unfolding turn
turn-enqueue_grows q b r (push_cas v p) small = ground arith
turn-enqueue_grows q b r (pop_cas p) small = ground arith
turn-enqueue_grows q b r p small = ground arith

Step-enqueue_grows :
    {q : Shape} {s t : System}
    → Step q s t
    → s.ring.enqueue_pos < 2 ^ 62
    → s.ring.enqueue_pos ≤ t.ring.enqueue_pos
Step-enqueue_grows (pushes i v e) small = omega arith
Step-enqueue_grows (pops i e) small = omega arith
Step-enqueue_grows {q} {s} (moves i b) small = turn-enqueue_grows q b s.ring (s.pc i) small

-- Steps from one state to another, of which thread `i` makes the first number, without spurious
-- failures; the others leave it where it stands.
pub data Competes (q : Shape) (i : ℕ) : ℕ → ℕ → System → System → Type 0 where
  alone_yet : (s : System) → Competes q i 0 0 s s
  own :
      {m j : ℕ} {s t : System}
      → Competes q i m j s t
      → Competes q i (suc m) (suc j) s (commit t i (t.pc i) (turn q false t.ring (t.pc i)))
  other :
      {m j : ℕ} {s t u : System}
      → Competes q i m j s t
      → Step q t u
      → u.pc i ≡ t.pc i
      → Competes q i m (suc j) s u

module _ (q : Shape) (lay : IsLayout q) (roomy : q.capacity ≤ 2 ^ 62) (i : ℕ) where
  pub Competes-Reach :
      {k m j : ℕ} {s t : System} → Reach q k s → Competes q i m j s t → Reach q (j + k) t
  Competes-Reach {k} r (alone_yet s) =
      let same : 0 + k ≡ k = omega arith in subst (λ n. Reach q n s) (sym same) r
  Competes-Reach {k} {j = suc j} {t = t} r (own c) =
      let moved : suc j + k ≡ suc (j + k) = omega arith in
      subst (λ n. Reach q n t) (sym moved) (later (Competes-Reach r c) (moves i false))
  Competes-Reach {k} {j = suc j} {t = t} r (other c st same) =
      let moved : suc j + k ≡ suc (j + k) = omega arith in
      subst (λ n. Reach q n t) (sym moved) (later (Competes-Reach r c) st)

  Competes-rank :
      {k m j : ℕ} {s t : System}
      → Reach q k s
      → Competes q i m j s t
      → j + k < 2 ^ 62
      → push_rank s.ring.enqueue_pos (s.pc i) ≤ 7
      → (s.ring.enqueue_pos ≤ t.ring.enqueue_pos)
        × (t.ring.enqueue_pos ≡ s.ring.enqueue_pos
            → push_rank s.ring.enqueue_pos (t.pc i) ≤ push_rank s.ring.enqueue_pos (s.pc i) - m)
  Competes-rank r (alone_yet s) few le = (omega arith, λ e. omega arith)
  Competes-rank {s = s} r (own {m} {j} {t = t} c) few le =
      let (grown, ranked) = Competes-rank r c (omega arith) le in
      let reach = Competes-Reach r c in
      let small = Reach-enqueue q lay roomy reach in
      let (o, inv) = Reach-Kept q lay roomy reach (omega arith) in
      let grows = turn-enqueue_grows q false t.ring (t.pc i) (omega (arith, small, few)) in
      (
        omega (arith, grown, grows),
        λ e.
            let same : t.ring.enqueue_pos ≡ s.ring.enqueue_pos = omega (arith, grown, grows, e) in
            let before = ranked same in
            let here =
              ap (push_rank s.ring.enqueue_pos)
                (update-at t.pc i (turn q false t.ring (t.pc i)).next i refl) in
            let step =
              subst
                (λ n.
                  push_rank n (t.pc i) ≤ 7
                  → (turn q false t.ring (t.pc i)).ring.enqueue_pos ≡ n
                  → push_rank n (turn q false t.ring (t.pc i)).next ≤ push_rank n (t.pc i) - 1)
                same
                (turn-push_rank q lay t o inv (omega (arith, small, few)) (t.pc i) (inv.local i))
                (omega (arith, before, le)) e in
            omega (arith, here, step, before),
      )
  Competes-rank {s = s} r (other {m} {j} {t = t} {u = u} c st stays) few le =
      let (grown, ranked) = Competes-rank r c (omega arith) le in
      let small = Reach-enqueue q lay roomy (Competes-Reach r c) in
      let grows = Step-enqueue_grows st (omega (arith, small, few)) in
      let here = ap (push_rank s.ring.enqueue_pos) stays in
      (
        omega (arith, grown, grows),
        λ e. let before = ranked (omega (arith, grown, grows, e)) in omega (arith, here, before),
      )

  -- `try_push` is lock-free: if a thread makes seven steps of it, whatever the others do in between,
  -- it has returned, or some push, its own or another, has won its exchange meanwhile. (No spurious failure of its exchange; capacity at most 2 ^ 62, fewer than 2 ^ 62 steps
  -- since the constructor.)
  pub push_lock_free :
      {k j : ℕ} {s t : System} (m : ℕ)
      → Reach q k s
      → Competes q i m j s t
      → j + k < 2 ^ 62
      → push_rank s.ring.enqueue_pos (s.pc i) ≤ 7
      → 7 ≤ m
      → (t.pc i ≡ idle) ⊎ (s.ring.enqueue_pos < t.ring.enqueue_pos)
  push_lock_free {s = s} {t = t} m r c few le enough =
      let (grown, ranked) = Competes-rank r c few le in
      elim (dec_lt s.ring.enqueue_pos t.ring.enqueue_pos) [
        | yes won ↦ inr won
        | no none_won ↦ inl (
            push_rank-zero s.ring.enqueue_pos (t.pc i)
              (omega (arith, le, enough, ranked (omega (arith, grown, none_won)))))
      ]
