-- ===== src/LockFreeQueue/Tests.antt =====
-- Runs of a queue of capacity 2, and the theorems on LockFreeQueue at states that they reach.
use async_task_engine.Common.{
  ℕ, ◌+◌, ◌^◌, ◌≤◌, ◌<◌, ◌≡◌, refl, ◌⊎◌, Bool, true, false, none, some, arith, ℕ_discrete, zero,
  suc, List, [], ◌∷◌, update,
}
use async_task_engine.LockFreeQueue.{
  word, Shape, shape, Ring, idle, round_up_pow2, create, index, push_branch, pop_branch, pushed,
  pop_load, popped, turn, size_approx,
}
use async_task_engine.LockFreeQueue.Capacity.{IsLayout, shape-IsLayout, round_up_pow2_least}
use async_task_engine.LockFreeQueue.System.{
  System, Reach, start, later, pushes, pops, moves, commit,
}
use async_task_engine.LockFreeQueue.Invariant.{reading}
use async_task_engine.LockFreeQueue.Progress.{Competes, own, other, alone_yet, push_lock_free}
use async_task_engine.LockFreeQueue.PopProgress.{pop_lock_free}
use async_task_engine.LockFreeQueue.Size.{size_approx_bounds}
use async_task_engine.LockFreeQueue.Bounded.{replay, enqueued, dequeued}
use async_task_engine.LockFreeQueue.Fifo.{history, Reach-refines}
use async_task_engine.LockFreeQueue.System.{Steps, none_yet, further}
use async_task_engine.LockFreeQueue.Sequential.{Call, push, pop}
use async_task_engine.LockFreeQueue.Calls.{run_calls, run_calls-reference}
use async_task_engine.LockFreeQueue.Safety.{touching-exclusive, push-full}
use async_task_engine.LockFreeQueue.Log.{Has, Faithful, Distinct}
use async_task_engine.LockFreeQueue.Delivery.{delivery}
use async_task_engine.LockFreeQueue.Alone.{IsQuiet}

capacities :
    (round_up_pow2 0 ≡ 2)
    × (round_up_pow2 5 ≡ 8)
    × (round_up_pow2 8 ≡ 8)
    × (round_up_pow2 (2 ^ 63) ≡ 2 ^ 63)
    × (round_up_pow2 (2 ^ 63 + 1) ≡ 0)
unfolding round_up_pow2
capacities = (refl, refl, refl, refl, refl)

abbrev two : Shape
two = record { capacity = 2; mask = 1 }

shape-two : shape 2 ≡ two
unfolding shape round_up_pow2
shape-two = refl

two-IsLayout : IsLayout two
unfolding shape round_up_pow2
two-IsLayout = (shape-IsLayout 2 (omega arith)).0

record Run : Type 0 where
  steps : ℕ
  last : System
  reach : Reach two steps last

move : ℕ → Run → Run
move i r = record { steps = suc r.steps; last = _; reach = later r.reach (moves i false) }

move_times : ℕ → ℕ → Run → Run
unfolding move
move_times zero i r = r
move_times (suc n) i r = move_times n i (move i r)

abbrev fresh : Run
fresh = record { steps = 0; last = _; reach = start }

abbrev begun : Run
unfolding create
begun = record { steps = 1; last = _; reach = later fresh.reach (pushes 0 7 refl) }

abbrev one_in : Run
unfolding move_times begun turn index push_branch ℕ_discrete
one_in = move_times 5 0 begun

-- Thread 0 has pushed 7, and thread 1 has pushed 8: the queue is full.
abbrev loaded : Run
unfolding one_in
loaded =
    move_times 5 1 (record { steps = 7; last = _; reach = later one_in.reach (pushes 1 8 refl) })

-- A third push has loaded its position.
abbrev knocking : Run
unfolding loaded
knocking = move 2 (record { steps = 13; last = _; reach = later loaded.reach (pushes 2 9 refl) })

-- Thread 3 has popped the first value.
abbrev served : Run
unfolding loaded pop_branch
served = move_times 5 3 (record { steps = 13; last = _; reach = later loaded.reach (pops 3 refl) })

-- A pop of an empty queue has loaded its position.
abbrev looking : Run
unfolding move create turn
looking = move 0 (record { steps = 1; last = _; reach = later fresh.reach (pops 0 refl) })

-- Thread 0 has won its exchange and is about to write its slot.
abbrev storing : Run
unfolding move_times begun turn index push_branch ℕ_discrete
storing = move_times 3 0 begun

served_history :
    (served.last.claimed ≡ 7 ∷ 8 ∷ [])
    × (served.last.delivered ≡ (0, 7) ∷ [])
    × (served.last.pc 3 ≡ popped (some 7))
unfolding served
served_history = (refl, refl, refl)

round_up_pow2_least_example :
    (k : ℕ) × (k < 65) × (2 ^ k < 10) × (5 ≤ 2 ^ k) × (round_up_pow2 5 ≡ word (2 ^ k))
round_up_pow2_least_example = round_up_pow2_least 5 (omega arith) (omega arith)

abbrev advance : ℕ → System → System
advance i s = commit s i (s.pc i) (turn two false s.ring (s.pc i))

-- Between the two loads thread 3 claims the first position.
abbrev asked : System
asked = record loaded.last { pc = update loaded.last.pc 3 pop_load }

abbrev between : Steps two 4 loaded.last (advance 3 (advance 3 (advance 3 asked)))
unfolding loaded
between =
    further
      (further (further (further (none_yet loaded.last) (pops 3 refl)) (moves 3 false))
        (moves 3 false))
      (moves 3 false)

size_approx_bounds_example :
    (let t = advance 3 (advance 3 (advance 3 asked)) in
      let n = size_approx loaded.last.ring.enqueue_pos t.ring.dequeue_pos in
      (n ≤ 2)
      × (loaded.last.ring.dequeue_pos + n ≤ loaded.last.ring.enqueue_pos)
      × (loaded.last.ring.enqueue_pos ≤ t.ring.dequeue_pos + n))
unfolding loaded
size_approx_bounds_example =
    size_approx_bounds two two-IsLayout (omega arith) loaded.reach between (omega arith)

Reach-refines_example :
    (replay 2 (history two served.reach) [] ≡ some (8 ∷ []))
    × (enqueued (history two served.reach) ≡ 7 ∷ 8 ∷ [])
    × Faithful (dequeued (history two served.reach)) ((0, 7) ∷ [])
unfolding served
Reach-refines_example = Reach-refines two two-IsLayout (omega arith) served.reach (omega arith)

touching-exclusive_example : ◌≡◌ {A = ℕ} 0 0
unfolding storing
touching-exclusive_example =
    touching-exclusive two two-IsLayout (omega arith) storing.reach (omega arith) 0 0 0 0 refl refl
      refl

push-full_example :
    (2 ≡ knocking.last.ring.enqueue_pos)
    × ((knocking.last.ring.enqueue_pos ≡ knocking.last.ring.dequeue_pos + 2)
        ⊎ ((j x : ℕ) × (reading (knocking.last.pc j) ≡ some x) × (x + 2 ≡ 2)))
unfolding knocking
push-full_example =
    push-full two two-IsLayout (omega arith) knocking.reach (omega arith) 2 9 2 false refl refl

delivery_example :
    Faithful served.last.claimed served.last.delivered
    × Distinct served.last.delivered
    × ((p : ℕ)
        → p < served.last.ring.dequeue_pos
        → Has p served.last.delivered ⊎ ((i : ℕ) × (reading (served.last.pc i) ≡ some p)))
unfolding served
delivery_example = delivery two two-IsLayout (omega arith) served.reach (omega arith)

loaded-IsQuiet : IsQuiet loaded.last
unfolding loaded
loaded-IsQuiet zero = (refl, refl)
loaded-IsQuiet (suc zero) = (refl, refl)
loaded-IsQuiet (suc (suc i)) = ground arith

abbrev smooth : List Bool
smooth = false ∷ false ∷ false ∷ false ∷ false ∷ false ∷ []

-- The exchange, which is the third step, fails once.
abbrev failing : List Bool
failing = false ∷ false ∷ true ∷ false ∷ false ∷ false ∷ false ∷ false ∷ []

abbrev calls : List (Call × List Bool)
calls =
    (push 7, smooth)
    ∷ (push 8, failing)
    ∷ (push 9, smooth)
    ∷ (pop, failing)
    ∷ (pop, smooth)
    ∷ (pop, smooth)
    ∷ []

run_calls-reference_example :
    (r : Ring) × (run_calls two calls (create 2)
      ≡ some (
        pushed true
            ∷ pushed true
            ∷ pushed false
            ∷ popped (some 7)
            ∷ popped (some 8)
            ∷ popped none
            ∷ [],
        r,
      ))
run_calls-reference_example =
    run_calls-reference two two-IsLayout (omega arith) calls
      (omega arith, (omega arith, (omega arith, (omega arith, (omega arith, (omega arith, tt))))))
      (omega arith)

record Race : Type 0 where
  last : System
  run : Competes two 2 7 8 knocking.last last

-- Thread 3 starts a pop, and the third push goes on.
abbrev race : Race
unfolding knocking
race = record {
  last = _;
  run =
      own (own (own (own (own (own (own (other (alone_yet knocking.last) (pops 3 refl) refl)))))));
}

push_lock_free_example :
    (race.last.pc 2 ≡ idle) ⊎ (knocking.last.ring.enqueue_pos < race.last.ring.enqueue_pos)
unfolding knocking race
push_lock_free_example =
    push_lock_free two two-IsLayout (omega arith) 2 7 knocking.reach race.run (omega arith)
      (omega arith) (omega arith)

-- Thread 3 starts a pop and thread 1 leaves its push; then the pop goes on.
abbrev asking : Run
unfolding loaded
asking = record { steps = 13; last = _; reach = later loaded.reach (pops 3 refl) }

record PopRace : Type 0 where
  last : System
  run : Competes two 3 7 8 asking.last last

abbrev pop_race : PopRace
unfolding asking
pop_race = record {
  last = _;
  run =
      own (own (own (own (own (own (own (other (alone_yet asking.last) (moves 1 false) refl)))))));
}

pop_lock_free_example :
    (pop_race.last.pc 3 ≡ idle) ⊎ (asking.last.ring.dequeue_pos < pop_race.last.ring.dequeue_pos)
unfolding asking pop_race
pop_lock_free_example =
    pop_lock_free two two-IsLayout (omega arith) 3 7 asking.reach pop_race.run (omega arith)
      (omega arith) (omega arith)
