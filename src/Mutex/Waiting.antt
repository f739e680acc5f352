-- ===== src/Mutex/Waiting.antt =====
-- How `acquireShmMutex` comes to the mutex, as an account of its attempts.
use rit_k8s_rdma_sriov_cni.Base.{ℕ, zero, suc, ◌<◌, ◌≡◌, ◌∙◌, ◌⊎◌, inl, inr, ◌↔◌, String, arith, []}
use rit_k8s_rdma_sriov_cni.Go.{Error, wrapf, ok, err, Tried, success, failure, attempt}
use rit_k8s_rdma_sriov_cni.Go.Laws.{
  by_parts_eq, attempt-success_eq, attempt-failure_eq, bind_eq, attempt_eq, attempt_eq_err,
  orelse_eq, orelse-ok_eq,
}
use rit_k8s_rdma_sriov_cni.Host.{Shm}
use rit_k8s_rdma_sriov_cni.Mutex.{
  mutex_name, max_attempts, take_over, after_attempt, attempts, acquire_shm_mutex,
}

-- From a state to another by so many attempts that fail, each with its second of sleep.
pub data Waits {W : Type 0} (s : Shm W) : ℕ → W → W → Type 0 where
  no_wait : {w : W} → Waits s zero w w
  wait :
      {n : ℕ} {w u v z : W} (e : Error)
      → s.create_exclusive mutex_name w ≡ (err e, u)
      → s.sleep_one_second u ≡ (ok tt, v)
      → Waits s n v z
      → Waits s (suc n) w z

module _ {W : Type 0} (s : Shm W) where
  -- The mutex is created at an attempt before the `n`th, after so many that failed.
  abbrev pub Creates : ℕ → W → String → W → Type 0
  Creates n w file v =
      (k : ℕ) × (k < n)
      × ((u : W) × Waits s k w u × (s.create_exclusive mutex_name u ≡ (ok file, v)))

  -- All attempts fail, and the file is taken from its owner.
  abbrev pub TakesOver : ℕ → W → String → W → Type 0
  TakesOver n w file v = (u : W) × Waits s n w u × (s.open_existing mutex_name u ≡ (ok file, v))

  one_more :
      (n : ℕ) (w u v z : W) (file : String) (e : Error)
      → s.create_exclusive mutex_name w ≡ (err e, u)
      → s.sleep_one_second u ≡ (ok tt, v)
      → Creates n v file z ⊎ TakesOver n v file z
      → Creates (suc n) w file z ⊎ TakesOver (suc n) w file z
  one_more n w u v z file e failed slept (inl (k, lt, (x, waits, made))) =
      inl (suc k, omega arith, (x, wait e failed slept waits, made))
  one_more n w u v z file e failed slept (inr (x, waits, opened)) =
      inr (x, wait e failed slept waits, opened)

  made_now :
      (n : ℕ) (w v : W) (file : String)
      → s.create_exclusive mutex_name w ≡ (ok file, v)
      → Creates (suc n) w file v
  made_now n w v file made = (0, omega arith, (w, no_wait, made))

  after_attempt-how :
      (n : ℕ) (w u v : W) (file : String) (made : Tried Error String)
      → ((x : W) → attempts s n x ≡ (ok file, v) → Creates n x file v ⊎ TakesOver n x file v)
      → attempt {F = Error} (s.create_exclusive mutex_name) w ≡ (ok made, u)
      → after_attempt s (attempts s n) made u ≡ (ok file, v)
      → Creates (suc n) w file v ⊎ TakesOver (suc n) w file v
  unfolding after_attempt
  after_attempt-how n w u v file (success f) later ran rest = inl (
      made_now n w v file
        (attempt-success_eq {F = Error} (s.create_exclusive mutex_name) w ran ∙ rest))
  after_attempt-how n w u v file (failure e) later ran rest =
      by_parts_eq s.sleep_one_second (λ _. attempts s n) u rest
        λ _ x slept rest'.
          one_more n w u x v file e
            (attempt-failure_eq {F = Error} (s.create_exclusive mutex_name) w ran) slept
            (later x rest')

  attempts-how :
      (n : ℕ) (w v : W) (file : String)
      → attempts s n w ≡ (ok file, v)
      → Creates n w file v ⊎ TakesOver n w file v
  unfolding attempts take_over
  attempts-how zero w v file e = inr (
    w,
    no_wait,
    orelse-ok_eq (s.open_existing mutex_name)
        (wrapf "Could not open shared mutex file after timeout: %s" []) w e,
  )
  attempts-how (suc n) w v file e =
      by_parts_eq (attempt (s.create_exclusive mutex_name)) (after_attempt s (attempts s n)) w e
        λ made u ran rest.
          after_attempt-how n w u v file made (λ x. attempts-how n x v file) ran rest

  -- The attempts go on after a failed one.
  pub attempts-wait :
      (n : ℕ) (w u v : W) (e : Error)
      → s.create_exclusive mutex_name w ≡ (err e, u)
      → s.sleep_one_second u ≡ (ok tt, v)
      → attempts s (suc n) w ≡ attempts s n v
  unfolding attempts after_attempt
  attempts-wait n w u v e failed slept =
      bind_eq (attempt (s.create_exclusive mutex_name)) (after_attempt s (attempts s n)) w
        (attempt_eq_err {F = Error} (s.create_exclusive mutex_name) w failed)
      ∙ bind_eq s.sleep_one_second (λ _. attempts s n) u slept

  attempts-created :
      (n k : ℕ) (w u v : W) (file : String)
      → k < n
      → Waits s k w u
      → s.create_exclusive mutex_name u ≡ (ok file, v)
      → attempts s n w ≡ (ok file, v)
  unfolding attempts after_attempt
  attempts-created zero k w u v file lt waits made = absurd (omega arith)
  attempts-created (suc n) zero w u v file lt no_wait made =
      bind_eq (attempt (s.create_exclusive mutex_name)) (after_attempt s (attempts s n)) w
        (attempt_eq {F = Error} (s.create_exclusive mutex_name) w made)
  attempts-created (suc n) (suc k) w u v file lt (wait e failed slept waits) made =
      attempts-wait n w _ _ e failed slept
      ∙ attempts-created n k _ u v file (omega arith) waits made

  attempts-taken :
      (n : ℕ) (w u v : W) (file : String)
      → Waits s n w u
      → s.open_existing mutex_name u ≡ (ok file, v)
      → attempts s n w ≡ (ok file, v)
  unfolding attempts take_over
  attempts-taken zero w u v file no_wait opened =
      orelse_eq (s.open_existing mutex_name)
        (wrapf "Could not open shared mutex file after timeout: %s" []) w opened
  attempts-taken (suc n) w u v file (wait e failed slept waits) opened =
      attempts-wait n w _ _ e failed slept ∙ attempts-taken n _ u v file waits opened

  -- `acquireShmMutex` returns a file exactly if it created the file at one of its 300 attempts,
  -- having slept a second after each earlier one, all of which had failed, or if all 300 failed and
  -- it opened the file that was there, which is another process's.
  pub acquire_shm_mutex-how :
      (w v : W) (file : String)
      → (acquire_shm_mutex s w ≡ (ok file, v))
        ↔ (Creates max_attempts w file v ⊎ TakesOver max_attempts w file v)
  unfolding acquire_shm_mutex
  acquire_shm_mutex-how w v file = (attempts-how max_attempts w v file, back)
    where
      back :
          Creates max_attempts w file v ⊎ TakesOver max_attempts w file v
          → attempts s max_attempts w ≡ (ok file, v)
      back (inl (k, lt, (u, waits, made))) =
          attempts-created max_attempts k w u v file lt waits made
      back (inr (u, waits, opened)) = attempts-taken max_attempts w u v file waits opened
