-- ===== src/Mutex/Traces.antt =====
-- The code of the mutex against the moves of Mutex.Processes: each call of the shared memory is a move
-- of the process; other processes may move between the calls, that is in each second of sleep.
use rit_k8s_rdma_sriov_cni.Base.{
  ℕ, zero, suc, ◌+◌, ◌-◌, ◌≡◌, refl, sym, ap, ◌∙◌, subst, ◌⊎◌, inl, inr, Bool, true, false, String,
  [], arith,
}
use rit_k8s_rdma_sriov_cni.Go.{Error, Outcome, ok, err, run_deferred, map_error, wrapf}
use rit_k8s_rdma_sriov_cni.Host.{Shm}
use rit_k8s_rdma_sriov_cni.Mutex.{mutex_name, max_attempts, acquire_shm_mutex, release_shm_mutex}
use rit_k8s_rdma_sriov_cni.Mutex.Waiting.{Waits, no_wait, wait, acquire_shm_mutex-how}
use rit_k8s_rdma_sriov_cni.Mutex.Ending.{Returns, Refused, timed_out, acquire_shm_mutex-ends}
use rit_k8s_rdma_sriov_cni.Mutex.Processes.{
  Phase, outside, trying, holding, refused, Move, creates, fails, takes_over, gives_up, releases,
}

-- What is assumed of package shm: `file` tells whether the mutex's file is there. With
-- `O_CREATE|O_EXCL` an open of its name fails exactly if it is there, and else makes it; without, it
-- fails exactly if it is not there. An unlink of its name removes it, and fails exactly if it is not
-- there. A file that was opened has the name under which it was opened, and closing it leaves the name.
pub record FileOf {W : Type 0} (s : Shm W) (file : W → Bool) : Type 0 where
  pub created :
      (w u : W) (f : String)
      → s.create_exclusive mutex_name w ≡ (ok f, u)
      → (f ≡ mutex_name) × (file w ≡ false) × (file u ≡ true)
  pub exists :
      (w u : W) (e : Error)
      → s.create_exclusive mutex_name w ≡ (err e, u)
      → (file w ≡ true) × (file u ≡ true)
  pub opened :
      (w u : W) (f : String)
      → s.open_existing mutex_name w ≡ (ok f, u)
      → (f ≡ mutex_name) × (file w ≡ true) × (file u ≡ true)
  pub gone :
      (w u : W) (e : Error)
      → s.open_existing mutex_name w ≡ (err e, u)
      → (file w ≡ false) × (file u ≡ false)
  pub unlinked : (w u : W) → s.unlink mutex_name w ≡ (ok tt, u) → (file w ≡ true) × (file u ≡ false)
  pub missing :
      (w u : W) (e : Error)
      → s.unlink mutex_name w ≡ (err e, u)
      → (file w ≡ false) × (file u ≡ false)
  pub unlinking :
      (w : W)
      → ((u : W) × (s.unlink mutex_name w ≡ (ok tt, u)))
        ⊎ ((e : Error) × (u : W) × (s.unlink mutex_name w ≡ (err e, u)))
  pub closed : (w : W) → file (s.close_file mutex_name w).1 ≡ file w

module _ {W : Type 0} (s : Shm W) (file : W → Bool) where
  -- From the loop with so many attempts left to the loop with fewer: each attempt is a call that fails,
  -- a move of the process, and is followed by the sleep, in which the file may change.
  pub data Attempts : ℕ → W → ℕ → W → Type 0 where
    none_more : {left : ℕ} {w : W} → Attempts left w left w
    again :
        {left n : ℕ} {w x y u : W} (e : Error)
        → s.create_exclusive mutex_name w ≡ (err e, x)
        → Move 0 (file w) (trying (suc left)) (file x) (trying left)
        → s.sleep_one_second x ≡ (ok tt, y)
        → Attempts left y n u
        → Attempts (suc left) w n u

  -- The attempts end with the call that makes the file, or with the one that opens it after the
  -- timeout, a takeover.
  abbrev pub Acquires : W → W → Type 0
  Acquires w u =
      ((left : ℕ) × (x : W) × Attempts max_attempts w (suc left) x
        × (s.create_exclusive mutex_name x ≡ (ok mutex_name, u))
        × Move 0 (file x) (trying (suc left)) (file u) holding)
      ⊎ ((x : W) × Attempts max_attempts w 0 x
          × (s.open_existing mutex_name x ≡ (ok mutex_name, u))
          × Move 1 (file x) (trying 0) (file u) holding)

  -- They end with the open after the timeout, which fails.
  abbrev pub Refuses : W → W → Type 0
  Refuses w u =
      (e : Error) × (x : W) × Attempts max_attempts w 0 x
      × (s.open_existing mutex_name x ≡ (err e, u))
      × Move 0 (file x) (trying 0) (file u) refused

  -- The unlink of the file from `v` on, and then its close
  pub record Unlocks (v u : W) : Type 0 where
    pub unlinked : W
    pub unlinks : (s.unlink mutex_name v).1 ≡ unlinked
    pub move : Move 0 (file v) holding (file unlinked) outside
    pub closes : (s.close_file mutex_name unlinked).1 ≡ u
    pub removed : file u ≡ false

module _ {W : Type 0} (s : Shm W) (file : W → Bool) (law : FileOf s file) where
  -- A move with the file as it is
  at_states :
      {k : ℕ} {f f' : Bool} {p q : Phase} (w u : W)
      → (file w ≡ f) × (file u ≡ f')
      → Move k f p f' q
      → Move k (file w) p (file u) q
  at_states {k} {f} {p = p} {q} w u (before, after) m =
      subst (λ b. Move k b p (file u) q) (sym before) (subst (λ b. Move k f p b q) (sym after) m)

  renumbered :
      {m n left : ℕ} {w u : W} → m ≡ n → Attempts s file m w left u → Attempts s file n w left u
  renumbered {left = left} {w} {u} e a = subst (λ n. Attempts s file n w left u) e a

  Waits-Attempts : (n left : ℕ) (w u : W) → Waits s n w u → Attempts s file (n + left) w left u
  Waits-Attempts zero left w u no_wait = renumbered {m = left} (omega arith) none_more
  Waits-Attempts (suc n) left w u (wait {u = x} {v = y} e failed slept waits) =
      renumbered {m = suc (n + left)} (omega arith) (
        again e failed (at_states w x (law.exists w x e failed) fails) slept
          (Waits-Attempts n left y u waits))

  acquired :
      (w u : W) (f : String)
      → acquire_shm_mutex s w ≡ (ok f, u)
      → (f ≡ mutex_name) × Acquires s file w u
  acquired w u f e = elim ((acquire_shm_mutex-how s w u f).0 e) [
    | inl (n, lt, (x, waits, made)) ↦
        let (name, was, is) = law.created x u f made in
        let left = max_attempts - suc n in
        (
          name,
          inl (
            left,
            x,
            renumbered {m = n + suc left} (omega (arith, lt))
                (Waits-Attempts n (suc left) w x waits),
            made ∙ ap (λ g. (ok g, u)) name,
            at_states x u (was, is) creates,
          ),
        )
    | inr (x, waits, got) ↦
        let (name, was, is) = law.opened x u f got in
        (
          name,
          inr (
            x,
            renumbered {m = max_attempts + 0} (omega arith)
                (Waits-Attempts max_attempts 0 w x waits),
            got ∙ ap (λ g. (ok g, u)) name,
            at_states x u (was, is) takes_over,
          ),
        )
  ]

  no_file_left : (w u : W) (e : Error) → Refused s max_attempts w e u → Refuses s file w u
  no_file_left w u e (x, waits, failed) = (
    e,
    x,
    renumbered {m = max_attempts + 0} (omega arith) (Waits-Attempts max_attempts 0 w x waits),
    failed,
    at_states x u (law.gone x u e failed) gives_up,
  )

  -- `acquireShmMutex` is the moves of a process of Mutex.Processes, call by call: it returns the
  -- mutex's file, at a move to holding it, or an error, at a move to the refusal. It is assumed that
  -- each call of the shared memory returns a value or an error, according to whether the file is there.
  pub acquire_shm_mutex-Moves :
      Returns s
      → (w : W)
      → ((u : W) × (acquire_shm_mutex s w ≡ (ok mutex_name, u)) × Acquires s file w u)
        ⊎ ((e : Error) × (u : W) × (acquire_shm_mutex s w ≡ (err (timed_out s e), u))
            × Refuses s file w u)
  acquire_shm_mutex-Moves r w = elim (acquire_shm_mutex-ends s r w) [
    | inl (f, u, got) ↦
        let (name, acquires) = acquired w u f got in
        inl (u, got ∙ ap (λ g. (ok g, u)) name, acquires)
    | inr (e, u, failed, why) ↦ inr (e, u, failed, no_file_left w u e why)
  ]

  unlocks :
      (v y : W)
      → (s.unlink mutex_name v).1 ≡ y
      → file y ≡ false
      → (release_shm_mutex s mutex_name v).1 ≡ (s.close_file mutex_name y).1
      → Unlocks s file v (release_shm_mutex s mutex_name v).1
  unlocks v y ran gone closing = record {
    unlinked = y;
    unlinks = ran;
    move = at_states v y (refl, gone) releases;
    closes = sym closing;
    removed = ap file closing ∙ law.closed y ∙ gone;
  }

  -- `releaseShmMutex` is the move that gives the mutex up, whether its unlink succeeds or fails.
  pub release_shm_mutex-Unlocks : (v : W) → Unlocks s file v (release_shm_mutex s mutex_name v).1
  unfolding release_shm_mutex
  release_shm_mutex-Unlocks v = elim (law.unlinking v) [
    | inl (y, done) ↦ unlocks v y (ap (λ r. r.1) done) (law.unlinked v y done).1 (ap closing done)
    | inr (e, y, failed) ↦
        unlocks v y (ap (λ r. r.1) failed) (law.missing v y e failed).1 (ap closing failed)
  ]
    where
      closing : Outcome Error Unit × W → W
      closing (r, y) =
          (run_deferred (map_error (wrapf "Failed to release shared memory mutex: %s" []) r)
            (s.close_file mutex_name) y).1
