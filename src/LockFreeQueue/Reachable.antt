-- ===== src/LockFreeQueue/Reachable.antt =====
-- include/ate/lockfree_queue.hpp: the invariant in every state that is reached in fewer than 2 ^ 62
-- steps from the constructor.
use Prim.Native.Nat.{Ordering}
use native.Mathlib.Nat.{mod-mod, le_refl}
use async_task_engine.Common.{
  ℕ, zero, suc, ◌+◌, ◌%◌, ◌^◌, ◌≤◌, ◌<◌, ◌≡◌, refl, sym, ap, ◌∙◌, inl, inr, Bool, false, not, ◌&&◌,
  none, arith, ◌==◌, Bool-cases,
}
use async_task_engine.LockFreeQueue.{
  word, Shape, Ring, create, fill, index, signed_compare, push_branch, pop_branch, Pc, idle,
  push_load, push_seq, push_cas, push_write, push_release, pushed, pop_load, pop_seq, pop_cas,
  pop_read, pop_release, popped, turn,
}
use async_task_engine.LockFreeQueue.Capacity.{IsLayout}
use async_task_engine.LockFreeQueue.System.{
  System, commit, Step, pushes, pops, moves, init, Reach, start, later,
}
use async_task_engine.LockFreeQueue.Invariant.{writing, reading, Owners, IsFree, IsFull, Local, Inv}
use async_task_engine.LockFreeQueue.Slots.{same_slot, Inv-moved}
use async_task_engine.LockFreeQueue.PushMoves
use async_task_engine.LockFreeQueue.PopMoves

abbrev pub Kept : Shape → System → Type 0
Kept q t = (o : Owners) × Inv q t o

module _ (q : Shape) (lay : IsLayout q) (roomy : q.capacity ≤ 2 ^ 62) where
  module _ (s : System) (o : Owners) (inv : Inv q s o) (small : s.ring.enqueue_pos < 2 ^ 62) where
    pub bounds : (p : ℕ) → s.ring.sequence (index q p) < 2 ^ 63
    bounds p = let here = inv.slots p in ground (arith, here.seq_at, here.above, inv.ordered)

    -- A slot whose sequence is its position is free, and one past it full.
    IsFree-of_seq : (p : ℕ) → s.ring.sequence (index q p) ≡ p → IsFree q s o p
    IsFree-of_seq p e =
        let here = inv.slots p in
        ground
          (arith, here.seq_at, same_slot q lay (o.at (index q p)) p here.home, lay.at_least_two)

    IsFull-of_seq : (p : ℕ) → s.ring.sequence (index q p) ≡ p + 1 → IsFull q s o p
    IsFull-of_seq p e =
        let here = inv.slots p in
        ground (
          arith,
          here.seq_at,
          same_slot q lay p (o.at (index q p)) (sym here.home),
          lay.at_least_two,
        )

    push_branch-Local :
        (v p : ℕ) (c : Ordering)
        → signed_compare (s.ring.sequence (index q p)) p ≡ c
        → p ≤ s.ring.enqueue_pos
        → Local q s o (push_branch v p c)
    unfolding push_branch
    push_branch-Local v p Ordering.eq e le = (le, λ _. IsFree-of_seq p (ground (arith, bounds p)))
    push_branch-Local v p Ordering.lt e le = tt
    push_branch-Local v p Ordering.gt e le = tt

    pop_branch-Local :
        (p : ℕ) (c : Ordering)
        → signed_compare (s.ring.sequence (index q p)) (word (p + 1)) ≡ c
        → p ≤ s.ring.dequeue_pos
        → Local q s o (pop_branch p c)
    unfolding pop_branch
    pop_branch-Local p Ordering.eq e le =
        (le, λ _. IsFull-of_seq p (ground (arith, bounds p, inv.ordered)))
    pop_branch-Local p Ordering.lt e le = tt
    pop_branch-Local p Ordering.gt e le = tt

    -- No branch of the two tests takes hold of a slot.
    push_branch_holds_none :
        (v p : ℕ) (c : Ordering)
        → (writing (push_branch v p c) ≡ none) × (reading (push_branch v p c) ≡ none)
    unfolding push_branch
    push_branch_holds_none v p Ordering.eq = (refl, refl)
    push_branch_holds_none v p c = (refl, refl)

    pop_branch_holds_none :
        (p : ℕ) (c : Ordering)
        → (writing (pop_branch p c) ≡ none) × (reading (pop_branch p c) ≡ none)
    unfolding pop_branch
    pop_branch_holds_none p Ordering.eq = (refl, refl)
    pop_branch_holds_none p c = (refl, refl)

    module _ (i : ℕ) where
      turn-Kept :
          (b : Bool) (p : Pc)
          → s.pc i ≡ p
          → Local q s o p
          → Kept q (commit s i p (turn q b s.ring p))
      unfolding turn
      turn-Kept b idle e l =
          (o, Inv-moved q lay s o inv i idle (ap writing e) (ap reading e) refl refl tt)
      turn-Kept b (push_load v) e l = (
        o,
        Inv-moved q lay s o inv i (push_seq v _) (ap writing e) (ap reading e) refl refl
            (le_refl _),
      )
      turn-Kept b (push_seq v p) e l =
          let c = signed_compare (s.ring.sequence (index q p)) p in
          let nothing = push_branch_holds_none v p c in
          (
            o,
            Inv-moved q lay s o inv i (push_branch v p c) (ap writing e) (ap reading e) nothing.0
                nothing.1 (push_branch-Local v p c refl l),
          )
      turn-Kept b (push_cas v p) e l = elim (Bool-cases (not b && s.ring.enqueue_pos == p)) [
        | inl won ↦
            rw won (o, PushMoves.Inv-won q lay s o inv i v p e (ground arith) (ground arith) l)
        | inr lost ↦ rw lost (
          o,
          Inv-moved q lay s o inv i (push_seq v _) (ap writing e) (ap reading e) refl refl
              (le_refl _),
        )
      ]
      turn-Kept b (push_write v p) e l = (o, PushMoves.Inv-written q lay s o inv i v p e l)
      turn-Kept b (push_release p) e l =
          (_, PushMoves.Inv-published q lay s o inv i p e (omega arith) l)
      turn-Kept b (pushed r) e l =
          (o, Inv-moved q lay s o inv i idle (ap writing e) (ap reading e) refl refl tt)
      turn-Kept b pop_load e l = (
        o,
        Inv-moved q lay s o inv i (pop_seq _) (ap writing e) (ap reading e) refl refl (le_refl _),
      )
      turn-Kept b (pop_seq p) e l =
          let c = signed_compare (s.ring.sequence (index q p)) (word (p + 1)) in
          let nothing = pop_branch_holds_none p c in
          (
            o,
            Inv-moved q lay s o inv i (pop_branch p c) (ap writing e) (ap reading e) nothing.0
                nothing.1 (pop_branch-Local p c refl l),
          )
      turn-Kept b (pop_cas p) e l = elim (Bool-cases (not b && s.ring.dequeue_pos == p)) [
        | inl won ↦
            rw won (
              o,
              PopMoves.Inv-won q lay s o inv i p e (ground arith) (ground (arith, inv.ordered)) l,
            )
        | inr lost ↦ rw lost (
          o,
          Inv-moved q lay s o inv i (pop_seq _) (ap writing e) (ap reading e) refl refl (le_refl _),
        )
      ]
      turn-Kept b (pop_read p) e l = (o, PopMoves.Inv-taken_out q lay s o inv i p e l)
      turn-Kept b (pop_release p x) e l = (
        _,
        PopMoves.Inv-recycled q lay s o inv i p x e (omega (arith, inv.ordered)) (omega arith) l,
      )
      turn-Kept b (popped r) e l =
          (o, Inv-moved q lay s o inv i idle (ap writing e) (ap reading e) refl refl tt)

    Step-Kept : {t : System} → Step q s t → Kept q t
    Step-Kept (pushes i v e) =
        (o, Inv-moved q lay s o inv i (push_load v) (ap writing e) (ap reading e) refl refl tt)
    Step-Kept (pops i e) =
        (o, Inv-moved q lay s o inv i pop_load (ap writing e) (ap reading e) refl refl tt)
    Step-Kept (moves i b) = turn-Kept i b (s.pc i) refl (inv.local i)

  turn-enqueue :
      (b : Bool) (r : Ring) (p : Pc) → (turn q b r p).ring.enqueue_pos ≤ r.enqueue_pos + 1
  unfolding turn
  turn-enqueue b r (push_cas v p) = ground arith
  turn-enqueue b r p = ground arith

  Step-enqueue : {s t : System} → Step q s t → t.ring.enqueue_pos ≤ s.ring.enqueue_pos + 1
  Step-enqueue (pushes i v e) = omega arith
  Step-enqueue (pops i e) = omega arith
  Step-enqueue {s} (moves i b) = turn-enqueue b s.ring (s.pc i)

  pub Reach-enqueue : {k : ℕ} {s : System} → Reach q k s → s.ring.enqueue_pos ≤ k
  unfolding create
  Reach-enqueue start = omega arith
  Reach-enqueue (later r st) = omega (arith, Reach-enqueue r, Step-enqueue st)

  fill-lt : (n : ℕ) (f : ℕ → ℕ) (j : ℕ) → j < n → fill n f j ≡ j
  unfolding fill
  fill-lt zero f j h = elim h [ ]
  fill-lt (suc n) f j h = ground (arith, fill-lt n f j)

  init-Kept : Kept q (init q)
  unfolding create
  init-Kept = (
    record { at = λ j. j; full = λ _. false },
    record {
      ordered = omega arith;
      bounded = omega arith;
      counted = refl;
      slots = λ p. record {
        home =
            lay.index_mod (index q p)
            ∙ ap (λ (t : ℕ). t % q.capacity) (lay.index_mod p)
            ∙ mod-mod p q.capacity
            ∙ sym (lay.index_mod p);
        seq_at = fill-lt q.capacity (λ _. 0) (index q p) (below p) ∙ omega arith;
        above = omega (arith, below p);
        below = omega arith;
        free = λ e. (omega arith, inl (omega arith));
        taken = λ e. cc;
      };
      local = λ i. tt;
      one_writer = λ i j p a b. cc;
      one_reader = λ i j p a b. cc;
    },
  )
    where
      below : (p : ℕ) → index q p < q.capacity
      below p = omega (arith, lay.index_mod p, lay.at_least_two)

  pub Reach-Kept : {k : ℕ} {s : System} → Reach q k s → k ≤ 2 ^ 62 → Kept q s
  Reach-Kept start small = init-Kept
  Reach-Kept (later {s = s} r st) small =
      let (o, inv) = Reach-Kept r (omega arith) in
      Step-Kept s o inv (omega (arith, Reach-enqueue r)) st
