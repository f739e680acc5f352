-- ===== src/Tests/Contention.antt =====
-- Two processes at the mutex: the second waits until the timeout, and takes the mutex over from the
-- first, which still works.
use rit_k8s_rdma_sriov_cni.Base.{ℕ, zero, suc, ◌+◌, ◌≤◌, true, false, [], ◌∷◌}
use rit_k8s_rdma_sriov_cni.Mutex.Processes.{
  Phase, outside, trying, holding, calls, creates, fails, takes_over, State, Runs, stays, moves,
  start, holders, there, holders-bound,
}

abbrev second : Phase → State
second p = record { file = true; phases = holding ∷ p ∷ [] }

waits : (n : ℕ) → Runs 0 (start 2) (second (trying n)) → Runs 0 (start 2) (second (trying 0))
waits zero r = r
waits (suc n) r = waits n (moves (holding ∷ []) [] r fails)

called : Runs 0 (start 2) (record { file = false; phases = trying 300 ∷ outside ∷ [] })
called = moves [] (outside ∷ []) stays calls

made : Runs 0 (start 2) (second outside)
made = moves [] (outside ∷ []) called creates

waiting : Runs 0 (start 2) (second (trying 300))
waiting = moves (holding ∷ []) [] made calls

taken_over : Runs 1 (start 2) (second holding)
taken_over = moves (holding ∷ []) [] (waits 300 waiting) takes_over

holders-bound_example : holders (holding ∷ holding ∷ []) ≤ there true + 1
holders-bound_example = holders-bound 2 1 (second holding) taken_over
