-- ===== src/LockFreeQueue/Sequential.antt =====
-- include/ate/lockfree_queue.hpp: calls by one thread, one after the other.
use async_task_engine.Common.{
  ℕ, suc, ◌+◌, ◌*◌, ◌^◌, ◌≤◌, ◌<◌, ◌≡◌, Bool, true, false, List, [], ◌∷◌, ◌++◌, Option, none, some,
  length, arith, ltb, if◌then◌else◌,
}
use async_task_engine.LockFreeQueue.{
  Shape, Ring, index, push_branch, pop_branch, Pc, idle, push_load, pushed, pop_load, popped, turn,
}
use async_task_engine.LockFreeQueue.Alone.{run_alone}
use async_task_engine.LockFreeQueue.Solo.{run_claim}

pub data Call : Type 0 where
  push : (value : ℕ) → Call
  pop : Call

abbrev pub begin : Call → Pc
begin (push v) = push_load v
begin pop = pop_load

-- The thread has an answer.
abbrev pub returned : Pc → Bool
returned (pushed b) = true
returned (popped o) = true
returned p = false

-- One call from its first step to its answer, with a flag for each step, whether a weak exchange
-- that is made there fails for no reason: `none` if the steps do not suffice.
unfoldable pub operate : Shape → List Bool → Ring → Pc → Option (Pc × Ring)
operate q [] r p = if returned p then some (p, r) else none
operate q (spurious ∷ later) r p =
    let t = turn q spurious r p in
    let rest = operate q later t.ring t.next in if returned p then some (p, r) else rest

-- How many of the flags are set.
abbrev pub failures : List Bool → ℕ
failures [] = 0
failures (true ∷ later) = suc (failures later)
failures (false ∷ later) = failures later

-- So many steps, and two more for each flag that is set.
abbrev pub Suffices : ℕ → List Bool → Type 0
Suffices steps flags = steps + 2 * failures flags ≤ length flags

abbrev pub no_failures : List Bool
no_failures = false ∷ false ∷ false ∷ false ∷ false ∷ false ∷ []

-- The same call on a list of at most `capacity` elements.
abbrev pub reference : ℕ → Call → List ℕ → Pc × List ℕ
reference capacity (push v) xs =
    if ltb (length xs) capacity then (pushed true, xs ++ v ∷ []) else (pushed false, xs)
reference capacity pop [] = (popped none, [])
reference capacity pop (x ∷ xs) = (popped (some x), xs)

-- What six steps of a call do, no exchange failing for no reason.
abbrev pub Does : Shape → Ring → List ℕ → Pc → Pc → ℕ → List ℕ → Type 0
Does q r log p answer deq log' =
    (operate q no_failures r p ≡ some (answer, (run_alone q 6 r p).ring))
    × ((run_alone q 6 r p).next ≡ idle)
    × (run_claim q 6 r p log ≡ log')
    × ((run_alone q 6 r p).ring.dequeue_pos ≡ deq)

module _ (q : Shape) (r : Ring) (small : r.enqueue_pos < 2 ^ 62) (log : List ℕ) where
  pub push_room :
      (v : ℕ)
      → r.sequence (index q r.enqueue_pos) ≡ r.enqueue_pos
      → Does q r log (push_load v) (pushed true) r.dequeue_pos (log ++ v ∷ [])
  unfolding operate run_alone run_claim turn push_branch
  push_room v e = ground arith

  pub push_full :
      (v : ℕ)
      → r.sequence (index q r.enqueue_pos) < r.enqueue_pos
      → Does q r log (push_load v) (pushed false) r.dequeue_pos log
  unfolding operate run_alone run_claim turn push_branch
  push_full v e = ground arith

  pub pop_some :
      r.dequeue_pos ≤ r.enqueue_pos
      → r.sequence (index q r.dequeue_pos) ≡ r.dequeue_pos + 1
      → Does q r log pop_load
          (popped (some (r.value (index q r.dequeue_pos))))
          (suc r.dequeue_pos)
          log
  unfolding operate run_alone run_claim turn pop_branch
  pop_some le e = ground arith

  pub pop_none :
      r.dequeue_pos ≤ r.enqueue_pos
      → r.sequence (index q r.dequeue_pos) < r.dequeue_pos + 1
      → Does q r log pop_load (popped none) r.dequeue_pos log
  unfolding operate run_alone run_claim turn pop_branch
  pop_none le e = ground arith
