-- ===== src/Pipeline/Stages.antt =====
-- include/ate/pipeline.hpp: what a pipeline computes.
use async_task_engine.Common.{ℕ, ◌≡◌, refl, ap, ◌∙◌, List, [], ◌∷◌, Option, none, some}
use async_task_engine.AsyncResult.{Outcome, returned, threw}
use async_task_engine.TaskQueue.{TaskQueue, push}
use async_task_engine.Pipeline.{
  Chain, Stage, Pipeline, create, apply, new_chain, call_chain, then, run,
}

module _ {W : Type 0} where
  -- The stages called one after the other, from the first, up to the first that throws.
  abbrev pub in_order : List (Stage W) → Outcome × W → Outcome × W
  in_order [] r = r
  in_order (f ∷ fs) (threw exception, w) = (threw exception, w)
  in_order (f ∷ fs) (returned v, w) = in_order fs (f v w)

  abbrev pub add_stages : Pipeline W → List (Stage W) → Pipeline W
  add_stages p [] = p
  add_stages p (f ∷ fs) = add_stages (then W p f) fs

  in_order-apply :
      (f : Stage W) (fs : List (Stage W)) (r : Outcome × W)
      → in_order fs (apply W f r) ≡ in_order (f ∷ fs) r
  unfolding apply
  in_order-apply f fs (returned v, w) = refl
  in_order-apply f [] (threw x, w) = refl
  in_order-apply f (g ∷ fs) (threw x, w) = refl

  call-new_chain :
      (c : Option (Chain W)) (initial : ℕ) (f : Stage W) (w : W)
      → new_chain W c initial f w ≡ apply W f (call_chain W c initial w)
  unfolding new_chain call_chain
  call-new_chain none initial f w = refl
  call-new_chain (some c) initial f w = refl

  -- What the callable of a pipeline does.
  abbrev pub submitted : Pipeline W → Chain W
  submitted p = call_chain W p.chain p.initial

  submitted-then :
      (p : Pipeline W) (f : Stage W) (w : W) → submitted (then W p f) w ≡ apply W f (submitted p w)
  unfolding then call_chain
  submitted-then p f w = call-new_chain p.chain p.initial f w

  submitted-add_stages :
      (p : Pipeline W) (fs : List (Stage W)) (w : W)
      → submitted (add_stages p fs) w ≡ in_order fs (submitted p w)
  submitted-add_stages p [] w = refl
  submitted-add_stages p (f ∷ fs) w =
      submitted-add_stages (then W p f) fs w
      ∙ ap (in_order fs) (submitted-then p f w)
      ∙ in_order-apply f fs (submitted p w)

  submitted-create : (initial : ℕ) (w : W) → submitted (create W initial) w ≡ (returned initial, w)
  unfolding create call_chain
  submitted-create initial w = refl

  -- `run` of a pipeline of any number of stages does one thing, a push of one callable onto the queue
  -- of the pool, and throws if that is refused. When it is called, the callable passes the initial value through the stages in the
  -- order in which they were added, each called once; from the first that throws on none is called,
  -- and its exception is the result.
  pub run-add_stages :
      (initial : ℕ) (stages : List (Stage W)) (queue : TaskQueue (Chain W))
      → (chain : Chain W) × (run W (add_stages (create W initial) stages) queue ≡ push queue chain)
        × ((w : W) → chain w ≡ in_order stages (returned initial, w))
  unfolding run
  run-add_stages initial stages queue = (
    submitted (add_stages (create W initial) stages),
    refl,
    λ w.
        submitted-add_stages (create W initial) stages w
        ∙ ap (in_order stages) (submitted-create initial w),
  )
