-- ===== src/LockFreeQueue/PopMoves.antt =====
-- include/ate/lockfree_queue.hpp: the invariant after the last three steps of `try_pop`. The positions
-- are below 2 ^ 62 here, so that no sum wraps.
use async_task_engine.Common.{
  ℕ, ◌+◌, ◌^◌, ◌≤◌, ◌<◌, ◌≡◌, ◌≢◌, refl, sym, ap, ◌∙◌, inl, inr, false, some, update, arith,
  ℕ_discrete, if_pos, if_neg,
}
use async_task_engine.LockFreeQueue.{
  word, Shape, index, Pc, pop_seq, pop_cas, pop_read, pop_release, popped,
}
use async_task_engine.LockFreeQueue.Slots.{index-add, reading-Local}
use async_task_engine.LockFreeQueue.Capacity.{IsLayout}
use async_task_engine.LockFreeQueue.System.{System, commit}
use async_task_engine.LockFreeQueue.Invariant.{Owners, IsSlot, Local, Inv}

module _ (q : Shape) (lay : IsLayout q) (s : System) (o : Owners) (inv : Inv q s o) (i : ℕ) where
  module _ (p : ℕ) (at : s.pc i ≡ pop_cas p) (same : s.ring.dequeue_pos ≡ p) (small : p < 2 ^ 62)
      (mine : Local q s o (pop_cas p)) where
    abbrev pub won : System
    won =
        commit s i (pop_cas p)
          (record { ring = record s.ring { dequeue_pos = word (p + 1) }; next = pop_read p })

    IsSlot-won : (r : ℕ) → IsSlot q won o (index q r)
    IsSlot-won r =
        let full_p = mine.1 (omega arith) in
        let there = inv.slots r in
        let meet : o.at (index q r) ≡ p → index q r ≡ index q p =
          λ e. sym there.home ∙ ap (index q) e in
        record {
          home = there.home;
          seq_at = there.seq_at;
          above = ground (arith, there.above);
          below = there.below;
          free = λ e.
              let (lo, held) = there.free e in
              (
                ground (arith, meet),
                elim held [ inl le ↦ inl le | inr (k, h) ↦ inr (k, ground arith) ],
              );
          taken = λ e.
              let (lt, got, held) = there.taken e in
              (
                lt,
                got,
                elim held [
                  | inl le ↦ elim (ℕ_discrete (o.at (index q r)) p) [
                    | yes met ↦ inr (i, ground arith)
                    | no away ↦ inl (ground arith)
                  ]
                  | inr (k, h) ↦ inr (k, ground arith)
                ],
              );
        }

    Local-won : (k : ℕ) (x : Pc) → s.pc k ≡ x → Local q s o x → Local q won o x
    Local-won k (pop_seq r) e l = ground arith
    Local-won k x e l = ground arith

    pub Inv-won : Inv q won o
    Inv-won =
        let full_p = mine.1 (omega arith) in
        let here = inv.slots p in
        record {
          ordered = ground (arith, here.taken);
          bounded = ground (arith, inv.bounded);
          counted = inv.counted;
          slots = IsSlot-won;
          local = λ k. elim (ℕ_discrete i k) [
            | yes e ↦ rw (if_pos _ e) (omega arith, full_p)
            | no e ↦ rw (if_neg _ e) (Local-won k (s.pc k) refl (inv.local k))
          ];
          one_writer = λ a b r ea eb. ground (arith, inv.one_writer a b r);
          one_reader = λ a b r ea eb. ground (
            arith,
            inv.one_reader a b r,
            reading-Local q lay s o inv (s.pc a) r (inv.local a),
            reading-Local q lay s o inv (s.pc b) r (inv.local b),
          );
        }

  module _ (p : ℕ) (at : s.pc i ≡ pop_read p) (mine : Local q s o (pop_read p)) where
    abbrev pub taken_out : System
    taken_out =
        commit s i (pop_read p)
          (record { ring = s.ring; next = pop_release p (s.ring.value (index q p)) })

    IsSlot-taken_out : (r : ℕ) → IsSlot q taken_out o (index q r)
    IsSlot-taken_out r =
        let there = inv.slots r in
        record {
          home = there.home;
          seq_at = there.seq_at;
          above = there.above;
          below = there.below;
          free = λ e.
              let (lo, held) = there.free e in
              (lo, elim held [ inl le ↦ inl le | inr (k, h) ↦ inr (k, ground arith) ]);
          taken = λ e.
              let (lt, got, held) = there.taken e in
              (lt, got, elim held [ inl le ↦ inl le | inr (k, h) ↦ inr (k, ground arith) ]);
        }

    pub Inv-taken_out : Inv q taken_out o
    Inv-taken_out = record {
      ordered = inv.ordered;
      bounded = inv.bounded;
      counted = inv.counted;
      slots = IsSlot-taken_out;
      local = λ k. elim (ℕ_discrete i k) [
        | yes e ↦ rw (if_pos _ e) (ground (arith, (inv.slots p).taken))
        | no e ↦ rw (if_neg _ e) (inv.local k)
      ];
      one_writer = λ a b r ea eb. ground (arith, inv.one_writer a b r);
      one_reader = λ a b r ea eb. ground (arith, inv.one_reader a b r);
    }

  module _ (p x : ℕ) (at : s.pc i ≡ pop_release p x) (small : p < 2 ^ 62)
      (roomy : q.capacity ≤ 2 ^ 63) (mine : Local q s o (pop_release p x)) where
    abbrev pub recycled : System
    recycled = commit s i (pop_release p x) (record {
      ring = record s.ring {
        sequence = update s.ring.sequence (index q p) (word (p + q.capacity));
      };
      next = popped (some x);
    })

    abbrev pub emptied : Owners
    emptied = record {
      at = update o.at (index q p) (p + q.capacity);
      full = update o.full (index q p) false;
    }

    IsSlot-recycled : (r : ℕ) → IsSlot q recycled emptied (index q r)
    IsSlot-recycled r = elim (ℕ_discrete (index q p) (index q r)) [
      | yes met ↦
          let here = inv.slots p in
          let there = inv.slots r in
          record {
            home = ground (arith, index-add q lay p);
            seq_at = ground arith;
            above = ground arith;
            below = ground (arith, here.below);
            free = λ e. (ground (arith, here.below, inv.ordered), inl (ground (arith, here.below)));
            taken = λ e. absurd (ground arith);
          }
      | no away ↦
          let there = inv.slots r in
          record {
            home = ground (arith, there.home);
            seq_at = ground (arith, there.seq_at);
            above = ground (arith, there.above);
            below = ground (arith, there.below);
            free = λ e.
                let (lo, held) = there.free (ground arith) in
                (
                  ground arith,
                  elim held [ inl le ↦ inl (ground arith) | inr (k, h) ↦ inr (k, ground arith) ],
                );
            taken = λ e.
                let (lt, got, held) = there.taken (ground arith) in
                (
                  ground arith,
                  ground arith,
                  elim held [
                    | inl le ↦ inl (ground arith)
                    | inr (k, h) ↦ inr (k, ground (arith, there.home))
                  ],
                );
          }
    ]

    Local-recycled :
        (k : ℕ) (y : Pc) → s.pc k ≡ y → i ≢ k → Local q s o y → Local q recycled emptied y
    Local-recycled k (pop_cas r) e ne l = ground arith
    Local-recycled k (pop_read r) e ne l = ground (arith, inv.one_reader i k p)
    Local-recycled k (pop_release r z) e ne l = ground (arith, inv.one_reader i k p)
    Local-recycled k y e ne l = ground arith

    pub Inv-recycled : Inv q recycled emptied
    Inv-recycled = record {
      ordered = inv.ordered;
      bounded = inv.bounded;
      counted = inv.counted;
      slots = IsSlot-recycled;
      local = λ k. elim (ℕ_discrete i k) [
        | yes e ↦ rw (if_pos _ e) tt
        | no e ↦ rw (if_neg _ e) (Local-recycled k (s.pc k) refl e (inv.local k))
      ];
      one_writer = λ a b r ea eb. ground (arith, inv.one_writer a b r);
      one_reader = λ a b r ea eb. ground (arith, inv.one_reader a b r);
    }
