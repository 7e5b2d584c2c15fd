-- ===== src/TaskQueue/Tests.antt =====
-- Runs of a queue, and the theorems on TaskQueue at them.
use async_task_engine.Common.{ℕ, ◌≡◌, refl, false, List, [], ◌∷◌, ◌++◌}
use async_task_engine.TaskQueue.{empty, push, try_pop, wait_and_pop, shutdown}
use async_task_engine.TaskQueue.Fifo.{Call, pushes, try_pops, waits, shuts, run, begin, run-fifo}

abbrev history : List (Call ℕ)
history = pushes 1 ∷ pushes 2 ∷ try_pops ∷ shuts ∷ pushes 3 ∷ waits false ∷ []

-- The third push comes after the shutdown, and the queue is drained all the same.
run-history : (run (begin empty) history).taken ≡ 1 ∷ 2 ∷ []
unfolding run empty push try_pop wait_and_pop shutdown
run-history = refl

run-fifo_example :
    let t = run (begin empty) history in empty.tasks ++ t.taken ≡ t.popped ++ t.queue.tasks
run-fifo_example = run-fifo empty history
