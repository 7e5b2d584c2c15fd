-- ===== src/CoroTask/Ownership.antt =====
-- include/ate/coro_task.hpp: the owners of the frames, operation after operation.
use async_task_engine.Common.{
  ℕ, ◌≡◌, refl, sym, ap, subst, ◌∙◌, inl, inr, Bool, true, false, Option, none, some, update,
  update-at, update-other, ℕ_discrete, arith, Bool-cases, ◌==◌,
}
use mathlib.Core.Option.{some-injective, none-ne-some}
use mathlib.Core.Bool.{true≢false}
use async_task_engine.CoroTask.Owners.{
  Heap, destroy_frame, construct, call, move_construct, move_assign, destroy, Operation, calls,
  adopts, moves, assigns, destroys, run_operation, Initialises, IsMoveOnly, Reach, start, later,
}
use async_task_engine.CoroTask.Transfers.{
  Owned, Follows-Owned, transfer, transfer-Follows, same-Owned, new-Owned, drop-Owned,
}

update-none : (H : ℕ → Option ℕ) (x z : ℕ) → H x ≡ none → update H x none z ≡ H z
update-none H x z e = elim (ℕ_discrete x z) [
  | yes here ↦ update-at H x none z here ∙ sym e ∙ ap H here
  | no other ↦ update-other H x none z other
]

-- A variable loses its frame, if it has one.
destroy_frame-Owned :
    (H : ℕ → Option ℕ) (alive : ℕ → Bool) (next x : ℕ) (o : Option ℕ)
    → H x ≡ o
    → Owned H alive next
    → (alive' : ℕ → Bool) × (destroy_frame alive o ≡ some alive')
      × Owned (update H x none) alive' next
unfolding destroy_frame
destroy_frame-Owned H alive next x none e v =
    (alive, refl, same-Owned H (update H x none) alive next (λ z. update-none H x z e) v)
destroy_frame-Owned H alive next x (some h) e v =
    (update alive h false, rw (v.live x h e) refl, drop-Owned H alive next v x h e)

abbrev pub IsOwned : Heap → Type 0
IsOwned w = Owned w.handles w.alive w.next

still_there :
    (H : ℕ → Option ℕ) (x y z : ℕ)
    → (x ≡ z → ⊥)
    → update H y none z ≡ update (update H x none) y none z
still_there H x y z apart = elim (ℕ_discrete y z) [
  | yes here ↦ update-at H y none z here ∙ sym (update-at (update H x none) y none z here)
  | no other ↦
      update-other H y none z other
      ∙ sym (update-other H x none z apart)
      ∙ sym (update-other (update H x none) y none z other)
]

-- After `x` has lost its frame, the handle of `y` is moved to it.
assigned-Owned :
    (H : ℕ → Option ℕ) (alive : ℕ → Bool) (next x y : ℕ)
    → (x ≡ y → ⊥)
    → Owned (update H x none) alive next
    → Owned (update (update H y none) x (H y)) alive next
assigned-Owned H alive next x y other v =
    let empty_x = update-at H x none x refl in
    let moved = Follows-Owned _ _ _ alive next (transfer-Follows (update H x none) x y empty_x) v in
    same-Owned (transfer (update H x none) x y empty_x) (update (update H y none) x (H y)) alive
      next
      (λ z. elim (ℕ_discrete x z) [
        | yes here ↦
            update-at (update H y none) x (H y) z here
            ∙ sym (update-other H x none y other)
            ∙ sym (update-at (update (update H x none) y none) x (update H x none y) z here)
        | no apart ↦
            update-other (update H y none) x (H y) z apart
            ∙ still_there H x y z apart
            ∙ sym (update-other (update (update H x none) y none) x (update H x none y) z apart)
      ])
      moved

run_operation-IsOwned :
    (w : Heap) (op : Operation)
    → IsMoveOnly op
    → Initialises w op
    → IsOwned w
    → (w' : Heap) × (run_operation w op ≡ some w') × IsOwned w'
unfolding run_operation construct call move_construct move_assign destroy
run_operation-IsOwned w (calls x) one e v =
    (call w x, refl, new-Owned w.handles w.alive w.next v x e)
run_operation-IsOwned w (adopts x y) one e v = elim one [ ]
run_operation-IsOwned w (moves x y) one e v = (
  move_construct w x y,
  refl,
  Follows-Owned _ _ _ w.alive w.next (transfer-Follows w.handles x y e) v,
)
run_operation-IsOwned w (assigns x y) one e v = elim (Bool-cases (x == y)) [
  | inl same ↦ (w, rw same refl, v)
  | inr apart ↦
      let (alive, f, v') = destroy_frame-Owned w.handles w.alive w.next x (w.handles x) refl v in
      (
        record w { handles = update (update w.handles y none) x (w.handles y); alive = alive },
        rw apart (rw f refl),
        assigned-Owned w.handles alive w.next x y (ground arith) v',
      )
]
run_operation-IsOwned w (destroys x) one e v =
    let (alive, f, v') = destroy_frame-Owned w.handles w.alive w.next x (w.handles x) refl v in
    (record w { handles = update w.handles x none; alive = alive }, rw (f, destroy) refl, v')

Reach-IsOwned : {w : Heap} → Reach w → IsOwned w
Reach-IsOwned start = record {
  live = λ x h e. elim (none-ne-some h e) [ ];
  unique = λ x y h e f. elim (none-ne-some h e) [ ];
  owner = λ h a. elim (true≢false (sym a)) [ ];
  bounded = λ h a. elim (true≢false (sym a)) [ ];
}
Reach-IsOwned (later {w} {v} op r one e made) =
    let (w', f, owned) = run_operation-IsOwned w op one e (Reach-IsOwned r) in
    subst IsOwned (some-injective _ _ (sym f ∙ made)) owned

-- However a program calls coroutines and moves, assigns and destroys the variables of type
-- `CoroTask` that hold the results (an initialised variable being a new one), no frame is destroyed
-- twice: every operation is defined. This is for programs that do not make a second owner with the
-- public constructor, as `CoroTask b(a.handle())` does.
-- A variable with a handle owns a frame that is alive, and a frame that is alive is owned by exactly
-- one variable, so that none leaks.
pub owners-exclusive :
    (w : Heap)
    → Reach w
    → ((op : Operation)
        → IsMoveOnly op
        → Initialises w op
        → (w' : Heap) × (run_operation w op ≡ some w'))
      × ((x h : ℕ) → w.handles x ≡ some h → w.alive h ≡ true)
      × ((h : ℕ)
          → w.alive h ≡ true
          → (x : ℕ) × (w.handles x ≡ some h) × ((y : ℕ) → w.handles y ≡ some h → x ≡ y))
owners-exclusive w r =
    let v = Reach-IsOwned r in
    (
      λ op one e. let x = run_operation-IsOwned w op one e v in (x.0, x.1),
      v.live,
      λ h a. let (x, e) = v.owner h a in (x, e, λ y f. v.unique x y h e f),
    )
