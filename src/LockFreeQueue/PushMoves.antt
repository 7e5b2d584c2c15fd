-- ===== src/LockFreeQueue/PushMoves.antt =====
-- include/ate/lockfree_queue.hpp: the invariant after the last three steps of `try_push`. The positions
-- are below 2 ^ 62 here, so that no sum wraps.
use async_task_engine.Common.{
  ℕ, ◌+◌, ◌^◌, ◌<◌, ◌≡◌, ◌≢◌, refl, sym, ap, ◌∙◌, inl, inr, true, [], ◌∷◌, some, get_elem?,
  length-append, get_elem?-append_lt, get_elem?-append_length, update, arith, ℕ_discrete, if_pos,
  if_neg,
}
use async_task_engine.LockFreeQueue.{
  word, Shape, index, Pc, push_seq, push_cas, push_write, push_release, pushed, pop_release,
}
use async_task_engine.LockFreeQueue.Slots.{index-add, writing-Local}
use async_task_engine.LockFreeQueue.Capacity.{IsLayout}
use async_task_engine.LockFreeQueue.System.{System, commit}
use async_task_engine.LockFreeQueue.Invariant.{Owners, IsSlot, Local, Inv}

module _ (q : Shape) (lay : IsLayout q) (s : System) (o : Owners) (inv : Inv q s o) (i : ℕ) where
  module _ (v p : ℕ) (at : s.pc i ≡ push_cas v p) (same : s.ring.enqueue_pos ≡ p)
      (small : p < 2 ^ 62) (mine : Local q s o (push_cas v p)) where
    abbrev pub won : System
    won =
        commit s i (push_cas v p)
          (record { ring = record s.ring { enqueue_pos = word (p + 1) }; next = push_write v p })

    log_won : (r : ℕ) → r < p → get_elem? won.claimed r ≡ get_elem? s.claimed r
    log_won r lt = get_elem?-append_lt s.claimed (v ∷ []) r (omega (arith, inv.counted))

    own_won : get_elem? won.claimed p ≡ some v
    own_won = rw (← same, ← inv.counted) (get_elem?-append_length s.claimed v)

    not_before : (r : ℕ) → o.at (index q r) + q.capacity ≢ p
    not_before r e =
        let there = inv.slots r in
        let open_p = mine.1 (omega arith) in
        let one : index q r ≡ index q p =
          sym there.home ∙ sym (index-add q lay (o.at (index q r))) ∙ ap (index q) e in
        let met : o.at (index q r) ≡ o.at (index q p) = ap o.at one in
        omega (arith, lay.at_least_two, open_p.0)

    IsSlot-won : (r : ℕ) → IsSlot q won o (index q r)
    IsSlot-won r =
        let open_p = mine.1 (omega arith) in
        let here = inv.slots p in
        let there = inv.slots r in
        record {
          home = there.home;
          seq_at = there.seq_at;
          above = there.above;
          below = ground (arith, there.below, not_before r);
          free = λ e.
              let (lo, held) = there.free e in
              (
                lo,
                elim held [
                  | inl le ↦ elim (ℕ_discrete (o.at (index q r)) p) [
                    | yes met ↦ inr (i, ground arith)
                    | no away ↦ inl (ground arith)
                  ]
                  | inr (k, h) ↦ inr (k, ground arith)
                ],
              );
          taken = λ e.
              let (lt, got, held) = there.taken e in
              (
                ground arith,
                ground (arith, log_won (o.at (index q r))),
                elim held [ inl le ↦ inl le | inr (k, h) ↦ inr (k, ground arith) ],
              );
        }

    Local-won : (k : ℕ) (x : Pc) → s.pc k ≡ x → Local q s o x → Local q won o x
    Local-won k (push_seq _ r) e l = ground arith
    Local-won k (push_write u r) e l = ground (arith, log_won r)
    Local-won k (push_release r) e l = ground (arith, log_won r)
    Local-won k (pop_release r x) e l = ground (arith, log_won r, inv.ordered)
    Local-won k x e l = ground (arith)

    pub Inv-won : Inv q won o
    Inv-won =
        let open_p = mine.1 (omega arith) in
        record {
          ordered = ground (arith, inv.ordered);
          bounded = ground (arith, (inv.slots p).above);
          counted = ground (arith, length-append s.claimed (v ∷ []), inv.counted);
          slots = IsSlot-won;
          local = λ k. elim (ℕ_discrete i k) [
            | yes e ↦ rw (if_pos _ e) (omega arith, open_p, own_won)
            | no e ↦ rw (if_neg _ e) (Local-won k (s.pc k) refl (inv.local k))
          ];
          one_writer = λ a b r ea eb. ground (
            arith,
            inv.one_writer a b r,
            writing-Local q lay s o inv (s.pc a) r (inv.local a),
            writing-Local q lay s o inv (s.pc b) r (inv.local b),
          );
          one_reader = λ a b r ea eb. ground (arith, inv.one_reader a b r);
        }

  module _ (v p : ℕ) (at : s.pc i ≡ push_write v p) (mine : Local q s o (push_write v p)) where
    abbrev pub written : System
    written = commit s i (push_write v p) (record {
      ring = record s.ring { value = update s.ring.value (index q p) v };
      next = push_release p;
    })

    IsSlot-written : (r : ℕ) → IsSlot q written o (index q r)
    IsSlot-written r =
        let there = inv.slots r in
        let mine_free = mine.1 in
        record {
          home = there.home;
          seq_at = there.seq_at;
          above = there.above;
          below = there.below;
          free = λ e.
              let (lo, held) = there.free e in
              (lo, elim held [ inl le ↦ inl le | inr (k, h) ↦ inr (k, ground arith) ]);
          taken = λ e.
              let (lt, got, held) = there.taken e in
              (
                lt,
                ground arith,
                elim held [ inl le ↦ inl le | inr (k, h) ↦ inr (k, ground arith) ],
              );
        }

    Local-written : (k : ℕ) (x : Pc) → s.pc k ≡ x → i ≢ k → Local q s o x → Local q written o x
    Local-written k (push_release r) e ne l = ground (arith, inv.one_writer i k p)
    Local-written k x e ne l = l

    pub Inv-written : Inv q written o
    Inv-written = record {
      ordered = inv.ordered;
      bounded = inv.bounded;
      counted = inv.counted;
      slots = IsSlot-written;
      local = λ k. elim (ℕ_discrete i k) [
        | yes e ↦ rw (if_pos _ e) (ground arith)
        | no e ↦ rw (if_neg _ e) (Local-written k (s.pc k) refl e (inv.local k))
      ];
      one_writer = λ a b r ea eb. ground (arith, inv.one_writer a b r);
      one_reader = λ a b r ea eb. ground (arith, inv.one_reader a b r);
    }

  module _ (p : ℕ) (at : s.pc i ≡ push_release p) (small : p < 2 ^ 62)
      (mine : Local q s o (push_release p)) where
    abbrev pub published : System
    published = commit s i (push_release p) (record {
      ring = record s.ring { sequence = update s.ring.sequence (index q p) (word (p + 1)) };
      next = pushed true;
    })

    abbrev pub filled : Owners
    filled = record { at = o.at; full = update o.full (index q p) true }

    IsSlot-published : (r : ℕ) → IsSlot q published filled (index q r)
    IsSlot-published r = elim (ℕ_discrete (index q p) (index q r)) [
      | yes met ↦
          let here = inv.slots p in
          let there = inv.slots r in
          record {
            home = there.home;
            seq_at = ground (arith, here.seq_at);
            above = there.above;
            below = there.below;
            free = λ e. absurd (ground arith);
            taken = λ e. (ground arith, ground arith, inl (ground (arith, here.free)));
          }
      | no away ↦
          let there = inv.slots r in
          record {
            home = there.home;
            seq_at = ground (arith, there.seq_at);
            above = there.above;
            below = there.below;
            free = λ e.
                let (lo, held) = there.free (ground arith) in
                (
                  lo,
                  elim held [ inl le ↦ inl le | inr (k, h) ↦ inr (k, ground (arith, there.home)) ],
                );
            taken = λ e.
                let (lt, got, held) = there.taken (ground arith) in
                (lt, got, elim held [ inl le ↦ inl le | inr (k, h) ↦ inr (k, ground arith) ]);
          }
    ]

    Local-published :
        (k : ℕ) (x : Pc) → s.pc k ≡ x → i ≢ k → Local q s o x → Local q published filled x
    Local-published k (push_cas u r) e ne l = ground arith
    Local-published k (push_write u r) e ne l = ground (arith, inv.one_writer i k p)
    Local-published k (push_release r) e ne l = ground (arith, inv.one_writer i k p)
    Local-published k x e ne l = ground arith

    pub Inv-published : Inv q published filled
    Inv-published = record {
      ordered = inv.ordered;
      bounded = inv.bounded;
      counted = inv.counted;
      slots = IsSlot-published;
      local = λ k. elim (ℕ_discrete i k) [
        | yes e ↦ rw (if_pos _ e) tt
        | no e ↦ rw (if_neg _ e) (Local-published k (s.pc k) refl e (inv.local k))
      ];
      one_writer = λ a b r ea eb. ground (arith, inv.one_writer a b r);
      one_reader = λ a b r ea eb. ground (arith, inv.one_reader a b r);
    }
