-- ===== src/LockFreeQueue/Slots.antt =====
-- include/ate/lockfree_queue.hpp: which positions share a slot, and the steps that touch none.
use native.Mathlib.Nat.{div-add-mod', add-mod_right}
use async_task_engine.Common.{
  ℕ, ◌+◌, ◌*◌, ◌/◌, ◌%◌, ◌≤◌, ◌<◌, ◌≡◌, sym, ◌∙◌, inl, inr, none, some, update, arith, ℕ_discrete,
  if_pos, if_neg,
}
use async_task_engine.LockFreeQueue.{Shape, index, Pc, push_write, pop_read}
use async_task_engine.LockFreeQueue.Capacity.{IsLayout}
use async_task_engine.LockFreeQueue.System.{System}
use async_task_engine.LockFreeQueue.Invariant.{
  writing, reading, Owners, IsSlot, IsFree, IsFull, Local, Inv,
}

module _ (q : Shape) (lay : IsLayout q) where
  -- Two positions with one slot are a capacity apart.
  pub same_slot : (a b : ℕ) → index q a ≡ index q b → a < b → a + q.capacity ≤ b
  same_slot a b e lt =
      apart (a / q.capacity) (b / q.capacity) (div-add-mod' a q.capacity)
        (div-add-mod' b q.capacity)
    where
      rest : a % q.capacity ≡ b % q.capacity
      rest = sym (lay.index_mod a) ∙ e ∙ lay.index_mod b

      apart :
          (m n : ℕ)
          → m * q.capacity + a % q.capacity ≡ a
          → n * q.capacity + b % q.capacity ≡ b
          → a + q.capacity ≤ b
      apart m n ea eb = grind (arith, rest)

  pub index-add : (a : ℕ) → index q (a + q.capacity) ≡ index q a
  index-add a = lay.index_mod (a + q.capacity) ∙ add-mod_right a q.capacity ∙ sym (lay.index_mod a)

  module _ (s : System) (o : Owners) (inv : Inv q s o) where
    pub writing-Local :
        (p : Pc) (r : ℕ)
        → Local q s o p
        → writing p ≡ some r
        → (r < s.ring.enqueue_pos) × IsFree q s o r
    writing-Local (push_write v p) r l e = ground arith
    writing-Local p r l e = ground arith

    pub reading-Local :
        (p : Pc) (r : ℕ)
        → Local q s o p
        → reading p ≡ some r
        → (r < s.ring.dequeue_pos) × IsFull q s o r
    reading-Local (pop_read p) r l e = ground arith
    reading-Local p r l e = ground arith

    module _ (i : ℕ) where
      abbrev moved : Pc → System
      moved p' = record s { pc = update s.pc i p' }

      -- A step that only moves a thread which holds no slot.
      IsSlot-moved :
          (p' : Pc)
          → writing (s.pc i) ≡ none
          → reading (s.pc i) ≡ none
          → (j : ℕ) → IsSlot q s o j
          → IsSlot q (moved p') o j
      IsSlot-moved p' w r j v = record {
        home = v.home;
        seq_at = v.seq_at;
        above = v.above;
        below = v.below;
        free = λ e.
            let (lo, held) = v.free e in
            (lo, elim held [ inl le ↦ inl le | inr (k, h) ↦ inr (k, ground arith) ]);
        taken = λ e.
            let (lt, got, held) = v.taken e in
            (lt, got, elim held [ inl le ↦ inl le | inr (k, h) ↦ inr (k, ground arith) ]);
      }

      pub Inv-moved :
          (p' : Pc)
          → writing (s.pc i) ≡ none
          → reading (s.pc i) ≡ none
          → writing p' ≡ none
          → reading p' ≡ none
          → Local q s o p'
          → Inv q (moved p') o
      Inv-moved p' w r w' r' l = record {
        ordered = inv.ordered;
        bounded = inv.bounded;
        counted = inv.counted;
        slots = λ p. IsSlot-moved p' w r (index q p) (inv.slots p);
        local = λ k. elim (ℕ_discrete i k) [
          | yes e ↦ rw (if_pos _ e) l
          | no e ↦ rw (if_neg _ e) (inv.local k)
        ];
        one_writer = λ a b p ea eb. ground (arith, inv.one_writer a b p);
        one_reader = λ a b p ea eb. ground (arith, inv.one_reader a b p);
      }
