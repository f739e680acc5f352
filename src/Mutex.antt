-- ===== src/Mutex.antt =====
-- The mutex in shared memory, sriov/sriov.go: `acquireShmMutex`, `releaseShmMutex`.
pub mod Waiting
pub mod Ending
pub mod Processes
pub mod Traces
use rit_k8s_rdma_sriov_cni.Base.{ℕ, zero, suc, ◌*◌, String, []}
use rit_k8s_rdma_sriov_cni.Go.{
  Error, wrapf, Run, Tried, success, failure, pure, ◌>>=◌, ◌>>◌, ◌orelse◌, attempt, deferring,
}
use rit_k8s_rdma_sriov_cni.Host.{Shm}

abbrev pub mutex_name : String
mutex_name = "rdma_sriov_cni"

-- `60 * 5` attempts, a second apart
abbrev pub max_attempts : ℕ
max_attempts = 60 * 5

module _ {W : Type 0} (s : Shm W) where
  -- A file that is there after all attempts is taken for one that a crashed program left.
  unfoldable pub take_over : Run W Error String
  take_over =
      s.open_existing mutex_name
      orelse wrapf "Could not open shared mutex file after timeout: %s" []

  -- After an attempt: the new file, or a second's sleep and the rest of the loop
  unfoldable pub after_attempt : Run W Error String → Tried Error String → Run W Error String
  after_attempt later (success file) = pure file
  after_attempt later (failure e) = do s.sleep_one_second; later

  -- The loop with the attempts that are left
  unfoldable pub attempts : ℕ → Run W Error String
  attempts zero = take_over
  attempts (suc left) = do
    made ← attempt (s.create_exclusive mutex_name)
    after_attempt (attempts left) made

  unfoldable pub acquire_shm_mutex : Run W Error String
  acquire_shm_mutex = attempts max_attempts

  unfoldable pub release_shm_mutex : String → Run W Error Unit
  release_shm_mutex mutex_file =
      deferring (s.close_file mutex_file)
        (s.unlink mutex_file orelse wrapf "Failed to release shared memory mutex: %s" [])
