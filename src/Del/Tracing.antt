-- ===== src/Del/Tracing.antt =====
-- `cmdAdd` and `cmdDel` against the moves of a process in Mutex.Processes.
use rit_k8s_rdma_sriov_cni.Base.{◌≡◌, ◌≢◌, ◌⊎◌, Bool}
use rit_k8s_rdma_sriov_cni.Go.{Error, Outcome, exit, Run}
use rit_k8s_rdma_sriov_cni.Host.{Host}
use rit_k8s_rdma_sriov_cni.Mutex.Processes.{holding, crashed, Move}
use rit_k8s_rdma_sriov_cni.Mutex.Traces.{Acquires, Refuses, Unlocks}

module _ {W : Type 0} (h : Host W) (file : W → Bool) where
  -- From the end of a body, with its outcome and state, to the end of the command: unless the body has
  -- ended the process, the mutex is unlocked; if it has, the process has ended with the mutex held,
  -- and nothing has run after the body.
  abbrev pub Leaves : {A : Type 0} → Outcome Error A × W → Outcome Error A × W → Type 0
  Leaves b r =
      ((b.0 ≢ exit) × Unlocks h.shm file b.1 r.1)
      ⊎ ((b.0 ≡ exit) × (r ≡ (exit, b.1)) × Move 0 (file b.1) holding (file b.1) crashed)

  -- A command with the body `m`, from `w` to `r`, by the moves of one process, each a call of the
  -- shared memory: it is refused, and ends the process, or it holds the mutex from the start of the
  -- body to its end.
  abbrev pub Refines : {A : Type 0} → Run W Error A → W → Outcome Error A × W → Type 0
  Refines m w r =
      ((u : W) × (r ≡ (exit, u)) × Refuses h.shm file w u)
      ⊎ ((u : W) × Acquires h.shm file w u × Leaves (m u) r)
