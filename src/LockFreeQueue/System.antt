-- ===== src/LockFreeQueue/System.antt =====
-- include/ate/lockfree_queue.hpp: any number of threads that call `try_push` and `try_pop` on one
-- queue, interleaved at every shared access. Atomic accesses are taken in one total order.
use async_task_engine.Common.{ℕ, suc, ◌≡◌, Bool, List, [], ◌∷◌, ◌++◌, update}
use async_task_engine.LockFreeQueue.{
  Shape, Ring, create, Pc, idle, push_load, push_cas, push_write, pop_load, pop_release, Turn, turn,
}

-- `claimed` and `delivered` are the history: the value of each push that won its exchange, by
-- position, and each position and value that a pop returned, oldest first.
pub record System : Type 0 where
  pub ring : Ring
  pub pc : ℕ → Pc
  pub claimed : List ℕ
  pub delivered : List (ℕ × ℕ)

-- What a step adds to the history: a push claims a position where it goes on to write its slot.
abbrev pub claim : List ℕ → Pc → Pc → List ℕ
claim log (push_cas _ _) (push_write v _) = log ++ v ∷ []
claim log _ _ = log

abbrev pub deliver : List (ℕ × ℕ) → Pc → List (ℕ × ℕ)
deliver log (pop_release pos x) = log ++ (pos, x) ∷ []
deliver log _ = log

abbrev pub commit : System → ℕ → Pc → Turn → System
commit s i p t = record {
  ring = t.ring;
  pc = update s.pc i t.next;
  claimed = claim s.claimed p t.next;
  delivered = deliver s.delivered p;
}

pub data Step (q : Shape) (s : System) : System → Type 0 where
  pushes : (i v : ℕ) → s.pc i ≡ idle → Step q s (record s { pc = update s.pc i (push_load v) })
  pops : (i : ℕ) → s.pc i ≡ idle → Step q s (record s { pc = update s.pc i pop_load })
  moves :
      (i : ℕ) (spurious : Bool) → Step q s (commit s i (s.pc i) (turn q spurious s.ring (s.pc i)))

abbrev pub init : Shape → System
init q = record { ring = create q.capacity; pc = λ _. idle; claimed = []; delivered = [] }

-- Reached in so many steps.
pub data Reach (q : Shape) : ℕ → System → Type 0 where
  start : Reach q 0 (init q)
  later : {k : ℕ} {s t : System} → Reach q k s → Step q s t → Reach q (suc k) t

-- So many steps from one state to another.
pub data Steps (q : Shape) : ℕ → System → System → Type 0 where
  none_yet : (s : System) → Steps q 0 s s
  further : {j : ℕ} {s t u : System} → Steps q j s t → Step q t u → Steps q (suc j) s u
