-- ===== src/Mutex/Ending.antt =====
-- The end of `acquireShmMutex`.
use rit_k8s_rdma_sriov_cni.Base.{ℕ, zero, suc, String, [], ◌≡◌, ◌∙◌, ◌⊎◌, inl, inr}
use rit_k8s_rdma_sriov_cni.Go.{Error, wrapf, ok, err, attempt}
use rit_k8s_rdma_sriov_cni.Go.Laws.{bind_eq, attempt_eq, orelse_eq, orelse_eq_err}
use rit_k8s_rdma_sriov_cni.Host.{Shm}
use rit_k8s_rdma_sriov_cni.Mutex.{
  mutex_name, max_attempts, take_over, after_attempt, attempts, acquire_shm_mutex,
}
use rit_k8s_rdma_sriov_cni.Mutex.Waiting.{Waits, no_wait, wait, attempts-wait}

-- What is assumed of the shared memory and the clock: a call returns, with a value or an error, and
-- a sleep has no error.
pub record Returns {W : Type 0} (s : Shm W) : Type 0 where
  pub creating :
      (w : W)
      → ((file : String) × (u : W) × (s.create_exclusive mutex_name w ≡ (ok file, u)))
        ⊎ ((e : Error) × (u : W) × (s.create_exclusive mutex_name w ≡ (err e, u)))
  pub opening :
      (w : W)
      → ((file : String) × (u : W) × (s.open_existing mutex_name w ≡ (ok file, u)))
        ⊎ ((e : Error) × (u : W) × (s.open_existing mutex_name w ≡ (err e, u)))
  pub sleeping : (w : W) → (u : W) × (s.sleep_one_second w ≡ (ok tt, u))

module _ {W : Type 0} (s : Shm W) where
  abbrev pub timed_out : Error → Error
  timed_out = wrapf "Could not open shared mutex file after timeout: %s" []

  -- After so many attempts that failed, the file could not be opened either.
  abbrev pub Refused : ℕ → W → Error → W → Type 0
  Refused n w e v = (u : W) × Waits s n w u × (s.open_existing mutex_name u ≡ (err e, v))

  abbrev Ends : ℕ → W → Type 0
  Ends n w =
      ((file : String) × (v : W) × (attempts s n w ≡ (ok file, v)))
      ⊎ ((e : Error) × (v : W) × (attempts s n w ≡ (err (timed_out e), v)) × Refused n w e v)

  made_at :
      (n : ℕ) (w u : W) (file : String)
      → s.create_exclusive mutex_name w ≡ (ok file, u)
      → attempts s (suc n) w ≡ (ok file, u)
  unfolding attempts after_attempt
  made_at n w u file made =
      bind_eq (attempt (s.create_exclusive mutex_name)) (after_attempt s (attempts s n)) w
        (attempt_eq {F = Error} (s.create_exclusive mutex_name) w made)

  later :
      (n : ℕ) (w u v : W) (e : Error)
      → s.create_exclusive mutex_name w ≡ (err e, u)
      → s.sleep_one_second u ≡ (ok tt, v)
      → Ends n v
      → Ends (suc n) w
  later n w u v e failed slept (inl (file, x, got)) =
      inl (file, x, attempts-wait s n w u v e failed slept ∙ got)
  later n w u v e failed slept (inr (e', x, got, (y, waits, opened))) =
      inr (
        e',
        x,
        attempts-wait s n w u v e failed slept ∙ got,
        (y, wait e failed slept waits, opened),
      )

  attempts-Ends : Returns s → (n : ℕ) (w : W) → Ends n w
  unfolding attempts take_over
  attempts-Ends r zero w = elim (r.opening w) [
    | inl (file, u, opened) ↦
        inl (file, u, orelse_eq (s.open_existing mutex_name) timed_out w opened)
    | inr (e, u, failed) ↦
        inr (
          e,
          u,
          orelse_eq_err (s.open_existing mutex_name) timed_out w failed,
          (w, no_wait, failed),
        )
  ]
  attempts-Ends r (suc n) w = elim (r.creating w) [
    | inl (file, u, made) ↦ inl (file, u, made_at n w u file made)
    | inr (e, u, failed) ↦
        let (v, slept) = r.sleeping u in later n w u v e failed slept (attempts-Ends r n v)
  ]

  -- `acquireShmMutex` ends: it returns a file, or it returns the timeout's error, and then all its 300
  -- attempts failed, a second apart, and the file that was in their way was gone when it was to be
  -- opened, or could not be opened. It is assumed that each call of the shared memory returns a value
  -- or an error, and that the sleep returns.
  pub acquire_shm_mutex-ends :
      Returns s
      → (w : W)
      → ((file : String) × (v : W) × (acquire_shm_mutex s w ≡ (ok file, v)))
        ⊎ ((e : Error) × (v : W) × (acquire_shm_mutex s w ≡ (err (timed_out e), v))
            × Refused max_attempts w e v)
  unfolding acquire_shm_mutex
  acquire_shm_mutex-ends r w = attempts-Ends r max_attempts w
