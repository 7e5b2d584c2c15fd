-- ===== src/CoroTask/Owners.antt =====
-- include/ate/coro_task.hpp: variables of type `CoroTask` that are constructed, moved, assigned and
-- destroyed, and the frames that they own.
use async_task_engine.Common.{
  ℕ, suc, ◌≡◌, Bool, true, false, Option, none, some, update, if◌then◌else◌, ◌==◌,
}

-- `handle_` of each variable, `none` for a null handle, and the frames that were allocated: those
-- below `next`, of which some are alive.
pub record Heap : Type 0 where
  pub handles : ℕ → Option ℕ
  pub alive : ℕ → Bool
  pub next : ℕ

abbrev pub empty : Heap
empty = record { handles = λ x. none; alive = λ h. false; next = 0 }

-- `handle_.destroy()` under the test for null: `none` if the frame was destroyed before.
unfoldable pub destroy_frame : (ℕ → Bool) → Option ℕ → Option (ℕ → Bool)
destroy_frame alive none = some alive
destroy_frame alive (some h) = if alive h then some (update alive h false) else none

-- `CoroTask x(h)`, the public constructor
unfoldable pub construct : Heap → ℕ → Option ℕ → Heap
construct w x h = record w { handles = update w.handles x h }

-- The call of a coroutine: its frame is allocated, and `get_return_object` constructs `x` with it.
unfoldable pub call : Heap → ℕ → Heap
unfolding construct
call w x =
    construct (record w { alive = update w.alive w.next true; next = suc w.next }) x (some w.next)

-- `CoroTask x(std::move(y))`
unfoldable pub move_construct : Heap → ℕ → ℕ → Heap
move_construct w x y = record w { handles = update (update w.handles y none) x (w.handles y) }

-- `x = std::move(y)`
unfoldable pub move_assign : Heap → ℕ → ℕ → Option Heap
unfolding destroy_frame
move_assign w x y = if x == y then some w else elim (destroy_frame w.alive (w.handles x)) [
  | none ↦ none
  | some alive ↦
      some (record w { handles = update (update w.handles y none) x (w.handles y); alive = alive })
]

-- The destructor of `x`; a variable that does not exist is kept as one with a null handle.
unfoldable pub destroy : Heap → ℕ → Option Heap
unfolding destroy_frame
destroy w x = elim (destroy_frame w.alive (w.handles x)) [
  | none ↦ none
  | some alive ↦ some (record w { handles = update w.handles x none; alive = alive })
]

-- What a program does with its variables. A variable that is initialised did not exist before.
pub data Operation : Type 0 where
  calls : (x : ℕ) → Operation
  adopts : (x y : ℕ) → Operation  -- `CoroTask x(y.handle())`
  moves : (x y : ℕ) → Operation
  assigns : (x y : ℕ) → Operation
  destroys : (x : ℕ) → Operation

-- `none` is undefined behaviour: a frame is destroyed twice.
unfoldable pub run_operation : Heap → Operation → Option Heap
unfolding construct call move_construct move_assign destroy
run_operation w (calls x) = some (call w x)
run_operation w (adopts x y) = some (construct w x (w.handles y))
run_operation w (moves x y) = some (move_construct w x y)
run_operation w (assigns x y) = move_assign w x y
run_operation w (destroys x) = destroy w x

-- The variable that an operation initialises has no frame.
abbrev pub Initialises : Heap → Operation → Type 0
Initialises w (calls x) = w.handles x ≡ none
Initialises w (adopts x y) = w.handles x ≡ none
Initialises w (moves x y) = w.handles x ≡ none
Initialises w (assigns x y) = Unit
Initialises w (destroys x) = Unit

-- The program does not hand the handle of one variable to the constructor of another.
abbrev pub IsMoveOnly : Operation → Type 0
IsMoveOnly (adopts x y) = ⊥
IsMoveOnly _ = Unit

-- What programs reach that make no second owner of a handle.
pub data Reach : Heap → Type 0 where
  start : Reach empty
  later :
      {w v : Heap} (op : Operation)
      → Reach w
      → IsMoveOnly op
      → Initialises w op
      → run_operation w op ≡ some v
      → Reach v
