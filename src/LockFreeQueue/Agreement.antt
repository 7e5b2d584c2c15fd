-- ===== src/LockFreeQueue/Agreement.antt =====
-- include/ate/lockfree_queue.hpp: calls by one thread against a list.
use async_task_engine.Common.{
  ℕ, suc, ◌+◌, ◌-◌, ◌^◌, ◌≤◌, ◌<◌, ◌≡◌, refl, sym, subst, ap, ap₂, ◌∙◌, inl, inr, Bool, true, false,
  List, [], ◌∷◌, ◌++◌, none, some, length, arith, drop, drop-append, drop-get_elem?, length-drop,
  ltb, if◌then◌else◌, update, update-at, update-other, ℕ_discrete,
}
use async_task_engine.LockFreeQueue.{Shape, Ring, index, Pc, idle, pushed, popped}
use async_task_engine.LockFreeQueue.Capacity.{IsLayout}
use async_task_engine.LockFreeQueue.System.{System, pushes, pops, Reach, later}
use async_task_engine.LockFreeQueue.Invariant.{writing, reading}
use async_task_engine.LockFreeQueue.Reachable.{Reach-Kept, Reach-enqueue}
use async_task_engine.LockFreeQueue.Alone.{run_alone, IsQuiet, slot_of_push, slot_of_pop}
use async_task_engine.LockFreeQueue.Fifo.{contents}
use async_task_engine.LockFreeQueue.Solo.{solo, solo-Reach, solo-ring, solo-other}
use async_task_engine.LockFreeQueue.Sequential.{
  Call, push, pop, begin, operate, Suffices, no_failures, reference, Does, push_room, push_full,
  pop_some, pop_none,
}
use async_task_engine.LockFreeQueue.Retries.{
  push_room-retries, push_full-retries, pop_some-retries, pop_none-retries, sees_room, sees_full,
  sees_value, sees_nothing,
}

-- Nobody is inside a call, and the queue holds `xs`.
pub record Rests (q : Shape) (k : ℕ) (s : System) (xs : List ℕ) : Type 0 where
  pub reach : Reach q k s
  pub idles : (i : ℕ) → s.pc i ≡ idle
  pub holds : contents s ≡ xs

-- One call answers `answer`, whichever of its exchanges fail for no reason, and leaves the queue at
-- rest with `ys`.
abbrev pub Answers : Shape → ℕ → System → Call → Pc → List ℕ → Type 0
Answers q k s c answer ys =
    (r : Ring) × ((flags : List Bool)
      → Suffices 6 flags
      → operate q flags s.ring (begin c) ≡ some (answer, r))
    × (m : ℕ) × (m ≡ 7 + k)
    × (t : System) × (t.ring ≡ r)
    × Rests q m t ys

abbrev pub Agrees : Shape → ℕ → System → Call → Pc × List ℕ → Type 0
Agrees q k s c (answer, ys) = Answers q k s c answer ys

empty_list : (xs : List ℕ) → length xs ≡ 0 → xs ≡ []
empty_list [] e = refl
empty_list (x ∷ xs) e = absurd (omega arith)

module _ (q : Shape) {k : ℕ} {s : System} {xs : List ℕ} (v : Rests q k s xs) where
  abbrev called : Call → System
  called c = record s { pc = update s.pc 0 (begin c) }

  called-Reach : (c : Call) → Reach q (suc k) (called c)
  called-Reach (push x) = later v.reach (pushes 0 x (v.idles 0))
  called-Reach pop = later v.reach (pops 0 (v.idles 0))

  Does-Answers :
      (c : Call) (answer : Pc) (deq : ℕ) (log ys : List ℕ)
      → Does q s.ring s.claimed (begin c) answer deq log
      → ((flags : List Bool)
          → Suffices 6 flags
          → operate q flags s.ring (begin c) ≡ operate q no_failures s.ring (begin c))
      → drop deq log ≡ ys
      → Answers q k s c answer ys
  Does-Answers c answer deq log ys (done, ends, claims, popped_to) retries same =
      let t = solo q 0 6 (called c) in
      let (m, e, r') = solo-Reach q 0 6 (called-Reach c) in
      let (ring, pc, claimed) =
        solo-ring q 0 6 (called c) (begin c) (update-at s.pc 0 (begin c) 0 refl) in
      (
        (run_alone q 6 s.ring (begin c)).ring,
        λ flags enough. retries flags enough ∙ done,
        m,
        omega (arith, e),
        t,
        ring,
        record {
          reach = r';
          idles = λ i. elim (ℕ_discrete 0 i) [
            | yes here ↦ subst (λ j. t.pc j ≡ idle) here (pc ∙ ends)
            | no other ↦
                solo-other q 0 6 (called c) i other
                ∙ update-other s.pc 0 (begin c) i other
                ∙ v.idles i
          ];
          holds = ap₂ drop (ap (λ u. u.dequeue_pos) ring ∙ popped_to) (claimed ∙ claims) ∙ same;
        },
      )

  Rests-IsQuiet : IsQuiet s
  Rests-IsQuiet i = (ap writing (v.idles i), ap reading (v.idles i))

  module _ (lay : IsLayout q) (roomy : q.capacity ≤ 2 ^ 62) (few : k < 2 ^ 62) where
    push-Answers : (x : ℕ) → Agrees q k s (push x) (reference q.capacity (push x) xs)
    push-Answers x =
        let (o, inv) = Reach-Kept q lay roomy v.reach (omega arith) in
        let small : s.ring.enqueue_pos < 2 ^ 62 =
          omega (arith, Reach-enqueue q lay roomy v.reach) in
        let size : length xs ≡ s.ring.enqueue_pos - s.ring.dequeue_pos =
          omega (arith, ap length v.holds, length-drop s.ring.dequeue_pos s.claimed, inv.counted) in
        elim (slot_of_push q lay s o inv Rests-IsQuiet s.ring.enqueue_pos refl) [
          | inl (free, room) ↦
              let more : ltb (length xs) q.capacity ≡ true = ground (arith, size, inv.ordered) in
              subst
                (λ b. Agrees q k s (push x) (
                  if◌then◌else◌ {A = Pc × List ℕ} b (pushed true, xs ++ x ∷ []) (pushed false, xs)))
                (sym more)
                (Does-Answers (push x) (pushed true) s.ring.dequeue_pos (s.claimed ++ x ∷ [])
                  (xs ++ x ∷ []) (push_room q s.ring small s.claimed x free)
                  (λ flags. push_room-retries q s.ring x flags (sees_room q s.ring small x free))
                  (drop-append s.ring.dequeue_pos s.claimed (x ∷ [])
                      (omega (arith, inv.ordered, inv.counted))
                    ∙ ap (λ l. l ++ x ∷ []) v.holds))
          | inr (behind, full) ↦
              let none_left : ltb (length xs) q.capacity ≡ false =
                ground (arith, size, inv.ordered) in
              subst
                (λ b. Agrees q k s (push x) (
                  if◌then◌else◌ {A = Pc × List ℕ} b (pushed true, xs ++ x ∷ []) (pushed false, xs)))
                (sym none_left)
                (Does-Answers (push x) (pushed false) s.ring.dequeue_pos s.claimed xs
                  (push_full q s.ring small s.claimed x behind)
                  (λ flags. push_full-retries q s.ring x flags (sees_full q s.ring small x behind))
                  v.holds)
        ]

    pop-Answers : Agrees q k s pop (reference q.capacity pop xs)
    pop-Answers =
        let (o, inv) = Reach-Kept q lay roomy v.reach (omega arith) in
        let small : s.ring.enqueue_pos < 2 ^ 62 =
          omega (arith, Reach-enqueue q lay roomy v.reach) in
        elim (slot_of_pop q lay s o inv Rests-IsQuiet s.ring.dequeue_pos refl) [
          | inl (full, held) ↦
              let front : xs
                  ≡ s.ring.value (index q s.ring.dequeue_pos)
                    ∷ drop (suc s.ring.dequeue_pos) s.claimed =
                sym v.holds ∙ drop-get_elem? s.ring.dequeue_pos s.claimed _ held in
              subst (λ ys. Agrees q k s pop (reference q.capacity pop ys)) (sym front)
                (Does-Answers pop _ (suc s.ring.dequeue_pos) s.claimed _
                  (pop_some q s.ring small s.claimed inv.ordered full)
                  (λ flags.
                    pop_some-retries q s.ring flags (sees_value q s.ring small inv.ordered full))
                  refl)
          | inr (behind, empty) ↦
              let none_left : xs ≡ [] = empty_list xs (
                omega (
                  arith,
                  ap length v.holds,
                  length-drop s.ring.dequeue_pos s.claimed,
                  inv.counted,
                  empty,
                )) in
              subst (λ ys. Agrees q k s pop (reference q.capacity pop ys)) (sym none_left)
                (Does-Answers pop (popped none) s.ring.dequeue_pos s.claimed []
                  (pop_none q s.ring small s.claimed inv.ordered behind)
                  (λ flags.
                    pop_none-retries q s.ring flags
                      (sees_nothing q s.ring small inv.ordered behind))
                  (v.holds ∙ none_left))
        ]

    pub call-Answers : (c : Call) → Agrees q k s c (reference q.capacity c xs)
    call-Answers (push x) = push-Answers x
    call-Answers pop = pop-Answers
