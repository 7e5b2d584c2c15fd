-- ===== src/Pipeline/Tests.antt =====
-- include/ate/pipeline.hpp: a run of three stages that note their calls; the second throws.
use async_task_engine.Common.{ℕ, ◌+◌, ◌≡◌, List, [], ◌∷◌}
use async_task_engine.AsyncResult.{returned, threw}
use async_task_engine.Pipeline.{Chain, Stage, create, run}
use async_task_engine.TaskQueue.{empty, push}
use async_task_engine.Pipeline.Stages.{add_stages, run-add_stages}

abbrev increment : Stage (List ℕ)
increment v calls = (returned (v + 1), 1 ∷ calls)

abbrev fails : Stage (List ℕ)
fails v calls = (threw v, 2 ∷ calls)

abbrev stages : List (Stage (List ℕ))
stages = increment ∷ fails ∷ increment ∷ []

run-add_stages_example :
    (chain : Chain (List ℕ)) × (run (List ℕ) (add_stages (create (List ℕ) 4) stages) empty
      ≡ push empty chain)
    × ((w : List ℕ) → chain w ≡ (threw 5, 2 ∷ 1 ∷ w))
run-add_stages_example = run-add_stages 4 stages empty
