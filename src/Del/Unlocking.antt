-- ===== src/Del/Unlocking.antt =====
-- The mutex in `cmdAdd` and `cmdDel`, from the acquisition to the end.
use rit_k8s_rdma_sriov_cni.Base.{String, ◌≡◌, refl, sym, subst, ◌⊎◌, inl, inr}
use rit_k8s_rdma_sriov_cni.Go.{
  Error, Outcome, ok, err, exit, panic, Run, success, run_deferred, deferring, of_tried, ◌>>=◌,
}
use rit_k8s_rdma_sriov_cni.Conf.{NetConf, load_conf}
use rit_k8s_rdma_sriov_cni.Host.{Host}
use rit_k8s_rdma_sriov_cni.Mutex.{acquire_shm_mutex, release_shm_mutex}
use rit_k8s_rdma_sriov_cni.Pod.{or_fatal}
use rit_k8s_rdma_sriov_cni.Add.{add_locked, cmd_add}
use rit_k8s_rdma_sriov_cni.Add.Interfaces.{CmdArgs}
use rit_k8s_rdma_sriov_cni.Del.{del_locked, cmd_del}

module _ {W : Type 0} (h : Host W) (Released : W → Type 0)
    (frees : (file : String) (w : W) → Released (release_shm_mutex h.shm file w).1) where
  -- The process ended, or the mutex was released at the end.
  abbrev Settled : {A : Type 0} → Outcome Error A × W → Type 0
  Settled r = (r.0 ≡ exit) ⊎ Released r.1

  deferred-Settled :
      {A : Type 0} (file : String) (r : Outcome Error A) (u : W)
      → Settled (run_deferred r (release_shm_mutex h.shm file) u)
  deferred-Settled file (ok a) u = inr (frees file u)
  deferred-Settled file (err e) u = inr (frees file u)
  deferred-Settled file exit u = inl refl
  deferred-Settled file panic u = inr (frees file u)

  -- A body between the acquisition and the release
  abbrev guarded : {A : Type 0} → Run W Error String → Run W Error A → Run W Error A
  guarded acquire m = do
    mutex_file ← or_fatal h.cluster acquire
    deferring (release_shm_mutex h.shm mutex_file) m

  guarded-Settled :
      {A : Type 0} (m : Run W Error A) (r : Outcome Error String) (u w : W)
      → ¬ (r ≡ panic)
      → Settled (guarded (λ _. (r, u)) m w)
  unfolding or_fatal
  guarded-Settled m (ok file) u w calm = deferred-Settled file (m u).0 (m u).1
  guarded-Settled m (err e) u w calm = inl refl
  guarded-Settled m exit u w calm = inl refl
  guarded-Settled m panic u w calm = absurd (calm refl)

  -- An ADD ends the process, or it has released the mutex when it returns or panics, whatever its
  -- other calls do. `Released` is any predicate that `releaseShmMutex` establishes. It is assumed that
  -- the acquisition does not panic.
  cmd_add-Settled :
      (args : CmdArgs) (w : W)
      → ¬ ((acquire_shm_mutex h.shm w).0 ≡ panic)
      → Settled (cmd_add h args w)
  unfolding cmd_add or_fatal
  cmd_add-Settled args w calm =
      let (r, u) = acquire_shm_mutex h.shm w in guarded-Settled (add_locked h args) r u w calm

  -- A DEL whose configuration can be loaded ends the process, or it has released the mutex when it
  -- returns or panics, whatever its other calls do. `Released` is any predicate that
  -- `releaseShmMutex` establishes. It is assumed that the acquisition does not panic.
  cmd_del-Settled :
      (args : CmdArgs) (n : NetConf) (w : W)
      → load_conf h.unmarshal_net_conf args.stdin_data ≡ success n
      → ¬ ((acquire_shm_mutex h.shm w).0 ≡ panic)
      → Settled (cmd_del h args w)
  unfolding cmd_del or_fatal
  cmd_del-Settled args n w loaded calm =
      let (r, u) = acquire_shm_mutex h.shm w in
      subst
        (λ t.
          Settled ((of_tried t >>= λ c. guarded (acquire_shm_mutex h.shm) (del_locked h c args)) w))
        (sym loaded) (guarded-Settled (del_locked h n args) r u w calm)
