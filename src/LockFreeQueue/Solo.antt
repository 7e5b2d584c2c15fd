-- ===== src/LockFreeQueue/Solo.antt =====
-- include/ate/lockfree_queue.hpp: the system while only one thread moves.
use async_task_engine.Common.{
  ℕ, zero, suc, ◌+◌, ◌≡◌, ◌≢◌, refl, subst, ◌∙◌, false, List, update-at, update-other, arith,
}
use async_task_engine.LockFreeQueue.{Shape, Ring, Pc, turn}
use async_task_engine.LockFreeQueue.System.{System, moves, Reach, later, claim, commit}
use async_task_engine.LockFreeQueue.Alone.{run_alone}

-- `n` steps of thread `i`.
abbrev pub advance : Shape → ℕ → System → System
advance q i s = commit s i (s.pc i) (turn q false s.ring (s.pc i))

unfoldable pub solo : Shape → ℕ → ℕ → System → System
solo q i zero s = s
solo q i (suc n) s = solo q i n (advance q i s)

-- The claims that those steps add.
unfoldable pub run_claim : Shape → ℕ → Ring → Pc → List ℕ → List ℕ
run_claim q zero r p log = log
run_claim q (suc n) r p log =
    let t = turn q false r p in run_claim q n t.ring t.next (claim log p t.next)

module _ (q : Shape) (i : ℕ) where
  pub solo-Reach :
      (n : ℕ) {k : ℕ} {s : System} → Reach q k s → (m : ℕ) × (m ≡ n + k) × Reach q m (solo q i n s)
  unfolding solo
  solo-Reach zero {k} r = (k, omega arith, r)
  solo-Reach (suc n) r =
      let (m, e, r') = solo-Reach n (later r (moves i false)) in (m, omega (arith, e), r')

  pub solo-ring :
      (n : ℕ) (s : System) (p : Pc)
      → s.pc i ≡ p
      → ((solo q i n s).ring ≡ (run_alone q n s.ring p).ring)
        × ((solo q i n s).pc i ≡ (run_alone q n s.ring p).next)
        × ((solo q i n s).claimed ≡ run_claim q n s.ring p s.claimed)
  unfolding solo run_alone run_claim
  solo-ring zero s p e = (refl, e, refl)
  solo-ring (suc n) s p e =
      let t = turn q false s.ring (s.pc i) in
      subst
        (λ x.
          (let u = turn q false s.ring x in
            ((solo q i n (advance q i s)).ring ≡ (run_alone q n u.ring u.next).ring)
            × ((solo q i n (advance q i s)).pc i ≡ (run_alone q n u.ring u.next).next)
            × ((solo q i n (advance q i s)).claimed
                ≡ run_claim q n u.ring u.next (claim s.claimed x u.next))))
        e (solo-ring n (advance q i s) t.next (update-at s.pc i t.next i refl))

  pub solo-other : (n : ℕ) (s : System) (j : ℕ) → i ≢ j → (solo q i n s).pc j ≡ s.pc j
  unfolding solo
  solo-other zero s j other = refl
  solo-other (suc n) s j other =
      solo-other n (advance q i s) j other ∙ update-other s.pc i _ j other
