-- ===== src/Pipeline.antt =====
-- include/ate/pipeline.hpp: `Pipeline`. Values and exceptions are numbers. A callable is a function
-- on the state `W` of the rest of the program, so that it matters which stages are called, and when.
pub mod Stages
pub mod Tests
use async_task_engine.Common.{ℕ, Bool, List, [], ◌∷◌, Option, none, some}
use async_task_engine.AsyncResult.{Outcome, returned, threw}
use async_task_engine.TaskQueue.{TaskQueue, push}

module _ (W : Type 0) where
  abbrev pub Chain : Type 0
  Chain = W → Outcome × W

  abbrev pub Stage : Type 0
  Stage = ℕ → W → Outcome × W

  pub record Pipeline : Type 0 where
    pub initial : ℕ
    pub chain : Option (W → Outcome × W)

  unfoldable pub create : ℕ → Pipeline
  create initial = record { initial = initial; chain = none }

  -- `return f(std::move(intermediate))`, unless the previous chain threw.
  unfoldable pub apply : Stage → Outcome × W → Outcome × W
  apply f (returned intermediate, w) = f intermediate w
  apply f (threw exception, w) = (threw exception, w)

  -- The lambda that `then` builds.
  unfoldable pub new_chain : Option Chain → ℕ → Stage → Chain
  unfolding apply
  new_chain none prev_initial f w = apply f (returned prev_initial, w)
  new_chain (some prev_chain) prev_initial f w = apply f (prev_chain w)

  -- The initial value of the new pipeline is `U{}`.
  unfoldable pub then : Pipeline → Stage → Pipeline
  unfolding new_chain
  then p f = record { initial = 0; chain = some (new_chain p.chain p.initial f) }

  -- What the submitted callable does: the chain, or hand out the initial value.
  unfoldable pub call_chain : Option Chain → ℕ → Chain
  call_chain none initial w = (returned initial, w)
  call_chain (some chain) initial w = chain w

  -- `run` submits the callable to the pool: `true` if it returns the future, `false` if `submit`
  -- throws, as it does when the queue of the pool refuses the callable.
  unfoldable pub run : Pipeline → TaskQueue Chain → Bool × TaskQueue Chain
  run p queue = push queue (call_chain p.chain p.initial)
