-- ===== src/CoroPromise.antt =====
-- include/ate/coro_task.hpp: the promise types `CoroPromise<T>` and `CoroPromise<void>` and their final
-- awaiters. Values and exceptions are numbers; `void` is the value 0. What a move leaves of a value
-- depends on its type and is the parameter `moved`. `none` as the result of a function is undefined behaviour in the source.
pub mod Void
use async_task_engine.Common.{ℕ, ◌≡◌, refl, ap, Bool, true, false, Option, none, some, update}
use async_task_engine.AsyncResult.{Outcome, returned, threw}

pub record CoroPromise : Type 0 where
  pub result : Option ℕ
  pub exception : Option ℕ
  pub external_promise : Option ℕ

-- `return_value` and `unhandled_exception`
unfoldable pub complete : CoroPromise → Outcome → CoroPromise
complete p (returned value) = record p { result = some value }
complete p (threw exception) = record p { exception = some exception }

unfoldable pub has_result : CoroPromise → Bool
has_result p = elim p.result [
  | some v ↦ true
  | none ↦ elim p.exception [ some e ↦ true | none ↦ false ]
]

-- What is left in `result_` when its value is moved out.
abbrev pub moved_out : (ℕ → ℕ) → CoroPromise → ℕ → CoroPromise
moved_out moved p v = record p { result = some (moved v) }

-- The result, moved out.
unfoldable pub get_result : (ℕ → ℕ) → CoroPromise → Option (Outcome × CoroPromise)
get_result moved p = elim p.exception [
  | some e ↦ some (threw e, p)
  | none ↦ elim p.result [ some v ↦ some (returned v, moved_out moved p v) | none ↦ none ]
]

-- `FinalAwaiterVal::await_suspend`: the promise of the caller is filled, if there is one, and the
-- value is moved there.
unfoldable pub final_await :
    (ℕ → ℕ) → CoroPromise → (ℕ → Option Outcome) → Option (CoroPromise × (ℕ → Option Outcome))
final_await moved p promises = elim p.external_promise [
  | none ↦ some (p, promises)
  | some id ↦ elim p.exception [
    | some e ↦ some (p, update promises id (some (threw e)))
    | none ↦ elim p.result [
      | some v ↦ some (moved_out moved p v, update promises id (some (returned v)))
      | none ↦ none
    ]
  ]
]

pub record VoidPromise : Type 0 where
  pub completed : Bool
  pub exception : Option ℕ
  pub external_promise : Option ℕ

-- `return_void`, and `unhandled_exception`
unfoldable pub return_void : VoidPromise → VoidPromise
return_void p = record p { completed = true }

unfoldable pub unhandled_exception : VoidPromise → ℕ → VoidPromise
unhandled_exception p e = record p { exception = some e }

unfoldable pub has_void_result : VoidPromise → Bool
has_void_result p = elim p.completed [
  | true ↦ true
  | false ↦ elim p.exception [ some e ↦ true | none ↦ false ]
]

unfoldable pub get_void_result : VoidPromise → Outcome
get_void_result p = elim p.exception [ some e ↦ threw e | none ↦ returned 0 ]

-- `FinalAwaiterVoid::await_suspend`
unfoldable pub final_await_void : VoidPromise → (ℕ → Option Outcome) → ℕ → Option Outcome
final_await_void p promises = elim p.external_promise [
  | none ↦ promises
  | some id ↦ elim p.exception [
    | some e ↦ update promises id (some (threw e))
    | none ↦ update promises id (some (returned 0))
  ]
]

-- How a `void` body ends, and what that makes of its promise.
unfoldable pub complete_void : VoidPromise → Outcome → VoidPromise
unfolding return_void unhandled_exception
complete_void p (returned value) = return_void p
complete_void p (threw exception) = unhandled_exception p exception

-- What a result type keeps of the outcome of a body: `void` keeps no value.
abbrev pub void_outcome : Outcome → Outcome
void_outcome (returned value) = returned 0
void_outcome (threw exception) = threw exception

-- What is left of an outcome whose value was moved.
abbrev pub moved_outcome : (ℕ → ℕ) → Outcome → Outcome
moved_outcome moved (returned value) = returned (moved value)
moved_outcome moved (threw exception) = threw exception

-- What `CoroTask` uses of its promise type. The laws are about a coroutine that has just been
-- called: its promise has no result, and what the body leaves there is what the caller's promise
-- gets; `finished` is the promise after that, from which a later `get_result` takes what is left.
pub record PromiseType (P : Type 0) : Type 0 where
  pub created : P
  pub set_external_promise : P → ℕ → P
  pub complete : P → Outcome → P
  pub final_await : P → (ℕ → Option Outcome) → Option (P × (ℕ → Option Outcome))
  pub get_result : P → Option (Outcome × P)
  pub kept : Outcome → Outcome
  pub left : Outcome → Outcome
  pub finished : ℕ → Outcome → P
  pub final_await-complete :
      (id : ℕ) (o : Outcome) (promises : ℕ → Option Outcome)
      → final_await (complete (set_external_promise created id) o) promises
        ≡ some (finished id o, update promises id (some (kept o)))
  pub get_result-finished :
      (id : ℕ) (o : Outcome) → (p : P) × (get_result (finished id o) ≡ some (left o, p))

-- The promise after the caller's promise was filled.
abbrev pub value_finished : (ℕ → ℕ) → ℕ → Outcome → CoroPromise
value_finished moved id (returned v) = record {
  result = some (moved v);
  exception = none;
  external_promise = some id;
}
value_finished moved id (threw x) = record {
  result = none;
  exception = some x;
  external_promise = some id;
}

pub value_final_await :
    (moved : ℕ → ℕ) (id : ℕ) (o : Outcome) (promises : ℕ → Option Outcome)
    → final_await moved
        (complete (record { result = none; exception = none; external_promise = some id }) o)
        promises
      ≡ some (value_finished moved id o, update promises id (some o))
unfolding final_await complete
value_final_await moved id (returned v) promises = refl
value_final_await moved id (threw x) promises = refl

pub value_get_result :
    (moved : ℕ → ℕ) (id : ℕ) (o : Outcome)
    → (p : CoroPromise) × (get_result moved (value_finished moved id o)
        ≡ some (moved_outcome moved o, p))
unfolding get_result
value_get_result moved id (returned v) =
    (moved_out moved (value_finished moved id (returned v)) (moved v), refl)
value_get_result moved id (threw x) = (value_finished moved id (threw x), refl)

abbrev pub void_finished : ℕ → Outcome → VoidPromise
void_finished id (returned v) = record {
  completed = true;
  exception = none;
  external_promise = some id;
}
void_finished id (threw x) = record {
  completed = false;
  exception = some x;
  external_promise = some id;
}

pub void_final_await :
    (id : ℕ) (o : Outcome) (promises : ℕ → Option Outcome)
    → (let p =
          complete_void
            (record { completed = false; exception = none; external_promise = some id })
            o in
        ◌≡◌ {A = Option (VoidPromise × (ℕ → Option Outcome))}
          (some (p, final_await_void p promises))
          (some (void_finished id o, update promises id (some (void_outcome o)))))
unfolding final_await_void complete_void return_void unhandled_exception
void_final_await id (returned v) promises = refl
void_final_await id (threw x) promises = refl

pub void_get_result :
    (id : ℕ) (o : Outcome)
    → (p : VoidPromise) × (◌≡◌ {A = Option (Outcome × VoidPromise)}
        (some (get_void_result (void_finished id o), void_finished id o))
        (some (void_outcome o, p)))
unfolding get_void_result
void_get_result id (returned v) = (void_finished id (returned v), refl)
void_get_result id (threw x) = (void_finished id (threw x), refl)

-- `CoroPromise<T>`
abbrev pub value_promise : (ℕ → ℕ) → PromiseType CoroPromise
value_promise moved = record {
  created = record { result = none; exception = none; external_promise = none };
  set_external_promise = λ p id. record p { external_promise = some id };
  complete = complete;
  final_await = final_await moved;
  get_result = get_result moved;
  kept = λ o. o;
  left = moved_outcome moved;
  finished = value_finished moved;
  final_await-complete = value_final_await moved;
  get_result-finished = value_get_result moved;
}

-- `CoroPromise<void>`
abbrev pub void_promise : PromiseType VoidPromise
void_promise = record {
  created = record { completed = false; exception = none; external_promise = none };
  set_external_promise = λ p id. record p { external_promise = some id };
  complete = complete_void;
  final_await = λ p promises. some (p, final_await_void p promises);
  get_result = λ p. some (get_void_result p, p);
  kept = void_outcome;
  left = void_outcome;
  finished = void_finished;
  final_await-complete = void_final_await;
  get_result-finished = void_get_result;
}
