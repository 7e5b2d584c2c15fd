-- ===== src/LockFreeQueue/Retries.antt =====
-- include/ate/lockfree_queue.hpp: one thread whose weak exchanges may fail for no reason.
use async_task_engine.Common.{
  ℕ, ◌+◌, ◌^◌, ◌≤◌, ◌<◌, ◌≡◌, refl, sym, ◌∙◌, Bool, true, false, List, [], ◌∷◌, none, some, arith,
  ◌==◌,
}
use async_task_engine.LockFreeQueue.{
  word, Shape, Ring, signed_compare, index, push_branch, pop_branch, Pc, push_load, push_cas,
  pushed, pop_load, pop_cas, popped, turn,
}
use async_task_engine.LockFreeQueue.Sequential.{returned, operate, failures, Suffices, no_failures}

operate-returned :
    (q : Shape) (flags : List Bool) (r : Ring) (p : Pc)
    → returned p ≡ true
    → operate q flags r p ≡ some (p, r)
unfolding operate
operate-returned q [] r p e = rw e refl
operate-returned q (b ∷ flags) r p e = rw e refl

failures-cons : (b : Bool) (flags : List Bool) → failures flags ≤ failures (b ∷ flags)
failures-cons true flags = omega arith
failures-cons false flags = omega arith

same_position : (n : ℕ) → (n == n) ≡ true
same_position n = ground arith

module _ (q : Shape) (r : Ring) where
  -- Where `try_push` and `try_pop` go from the load of the sequence of the slot.
  abbrev pub after_push : ℕ → Pc
  after_push v =
      push_branch v r.enqueue_pos
        (signed_compare (r.sequence (index q r.enqueue_pos)) r.enqueue_pos)

  abbrev pub after_pop : Pc
  after_pop =
      pop_branch r.dequeue_pos
        (signed_compare (r.sequence (index q r.dequeue_pos)) (word (r.dequeue_pos + 1)))

  push_cas-retries :
      (v : ℕ) (flags : List Bool)
      → after_push v ≡ push_cas v r.enqueue_pos
      → Suffices 3 flags
      → operate q flags r (push_cas v r.enqueue_pos)
        ≡ operate q (false ∷ false ∷ false ∷ []) r (push_cas v r.enqueue_pos)
  unfolding operate turn
  push_cas-retries v [] e h = absurd (omega (arith, h))
  push_cas-retries v (true ∷ []) e h = absurd (omega (arith, h))
  push_cas-retries v (true ∷ b ∷ flags) e h =
      rw e (push_cas-retries v flags e (omega (arith, h, failures-cons b flags)))
  push_cas-retries v (false ∷ []) e h = absurd (omega (arith, h))
  push_cas-retries v (false ∷ b ∷ []) e h = absurd (omega (arith, h))
  push_cas-retries v (false ∷ b ∷ c ∷ flags) e h =
      rw (same_position r.enqueue_pos) (operate-returned q flags _ (pushed true) refl)

  pop_cas-retries :
      (flags : List Bool)
      → after_pop ≡ pop_cas r.dequeue_pos
      → Suffices 3 flags
      → operate q flags r (pop_cas r.dequeue_pos)
        ≡ operate q (false ∷ false ∷ false ∷ []) r (pop_cas r.dequeue_pos)
  unfolding operate turn
  pop_cas-retries [] e h = absurd (omega (arith, h))
  pop_cas-retries (true ∷ []) e h = absurd (omega (arith, h))
  pop_cas-retries (true ∷ b ∷ flags) e h =
      rw e (pop_cas-retries flags e (omega (arith, h, failures-cons b flags)))
  pop_cas-retries (false ∷ []) e h = absurd (omega (arith, h))
  pop_cas-retries (false ∷ b ∷ []) e h = absurd (omega (arith, h))
  pop_cas-retries (false ∷ b ∷ c ∷ flags) e h =
      rw (same_position r.dequeue_pos) (operate-returned q flags _ (popped _) refl)

  -- Each of the two calls gets the answer, and leaves the ring, that it would without the failures.
  pub push_room-retries :
      (v : ℕ) (flags : List Bool)
      → after_push v ≡ push_cas v r.enqueue_pos
      → Suffices 6 flags
      → operate q flags r (push_load v) ≡ operate q no_failures r (push_load v)
  unfolding operate turn
  push_room-retries v [] e h = absurd (omega (arith, h))
  push_room-retries v (a ∷ []) e h = absurd (omega (arith, h))
  push_room-retries v (a ∷ b ∷ flags) e h = rw e (
      push_cas-retries v flags e
        (omega (arith, h, failures-cons b flags, failures-cons a (b ∷ flags)))
      ∙ sym (push_cas-retries v (false ∷ false ∷ false ∷ false ∷ []) e (omega arith)))

  pub push_full-retries :
      (v : ℕ) (flags : List Bool)
      → after_push v ≡ pushed false
      → Suffices 6 flags
      → operate q flags r (push_load v) ≡ operate q no_failures r (push_load v)
  unfolding operate turn
  push_full-retries v [] e h = absurd (omega (arith, h))
  push_full-retries v (a ∷ []) e h = absurd (omega (arith, h))
  push_full-retries v (a ∷ b ∷ flags) e h = rw e (operate-returned q flags r (pushed false) refl)

  pub pop_some-retries :
      (flags : List Bool)
      → after_pop ≡ pop_cas r.dequeue_pos
      → Suffices 6 flags
      → operate q flags r pop_load ≡ operate q no_failures r pop_load
  unfolding operate turn
  pop_some-retries [] e h = absurd (omega (arith, h))
  pop_some-retries (a ∷ []) e h = absurd (omega (arith, h))
  pop_some-retries (a ∷ b ∷ flags) e h = rw e (
      pop_cas-retries flags e (omega (arith, h, failures-cons b flags, failures-cons a (b ∷ flags)))
      ∙ sym (pop_cas-retries (false ∷ false ∷ false ∷ false ∷ []) e (omega arith)))

  pub pop_none-retries :
      (flags : List Bool)
      → after_pop ≡ popped none
      → Suffices 6 flags
      → operate q flags r pop_load ≡ operate q no_failures r pop_load
  unfolding operate turn
  pop_none-retries [] e h = absurd (omega (arith, h))
  pop_none-retries (a ∷ []) e h = absurd (omega (arith, h))
  pop_none-retries (a ∷ b ∷ flags) e h = rw e (operate-returned q flags r (popped none) refl)

module _ (q : Shape) (r : Ring) (small : r.enqueue_pos < 2 ^ 62) where
  pub sees_room :
      (v : ℕ)
      → r.sequence (index q r.enqueue_pos) ≡ r.enqueue_pos
      → after_push q r v ≡ push_cas v r.enqueue_pos
  unfolding push_branch
  sees_room v e = ground arith

  pub sees_full :
      (v : ℕ) → r.sequence (index q r.enqueue_pos) < r.enqueue_pos → after_push q r v ≡ pushed false
  unfolding push_branch
  sees_full v e = ground arith

  pub sees_value :
      r.dequeue_pos ≤ r.enqueue_pos
      → r.sequence (index q r.dequeue_pos) ≡ r.dequeue_pos + 1
      → after_pop q r ≡ pop_cas r.dequeue_pos
  unfolding pop_branch
  sees_value le e = ground arith

  pub sees_nothing :
      r.dequeue_pos ≤ r.enqueue_pos
      → r.sequence (index q r.dequeue_pos) < r.dequeue_pos + 1
      → after_pop q r ≡ popped none
  unfolding pop_branch
  sees_nothing le e = ground arith
