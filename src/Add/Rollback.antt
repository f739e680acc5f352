-- ===== src/Add/Rollback.antt =====
-- What the deferred calls of `cmdAdd` undo.
use rit_k8s_rdma_sriov_cni.Base.{ℕ, String, ◌≡◌, refl, Option, none, some, List, [], ◌∷◌}
use rit_k8s_rdma_sriov_cni.Go.{Error, ok, success, ignore}
use rit_k8s_rdma_sriov_cni.Go.Laws.{bind_unit}
use rit_k8s_rdma_sriov_cni.Conf.{NetConf}
use rit_k8s_rdma_sriov_cni.Host.{Host, Ns}
use rit_k8s_rdma_sriov_cni.Release.{release_vf}
use rit_k8s_rdma_sriov_cni.Add.Interfaces.{CmdArgs, Deferred, rollback, run_deferred_calls, look_up}

module _ {W : Type 0} (h : Host W) (args : CmdArgs) (netns : Ns) (conf : NetConf) where
  -- With `err` nil the deferred calls do nothing.
  pub run_deferred_calls-none :
      (ds : List Deferred) (w : W) → run_deferred_calls h args netns conf none ds w ≡ (ok tt, w)
  unfolding run_deferred_calls
  run_deferred_calls-none [] w = refl
  run_deferred_calls-none (d ∷ ds) w = run_deferred_calls-none ds w

  -- Once a rollback has found its interface in the pod, no deferred call after it does anything:
  -- what runs is the release of that one interface.
  pub rollback_last :
      (e : Error) (if_name pf_name : String) (vf : Option ℕ) (rest : List Deferred) (w : W)
      → (look_up h args netns if_name w).0 ≡ ok (success tt)
      → run_deferred_calls h args netns conf (some e) (rollback if_name pf_name vf ∷ rest) w
        ≡ ignore {F = Error}
            (release_vf h conf if_name args.container_id netns pf_name vf)
            (look_up h args netns if_name w).1
  unfolding run_deferred_calls
  rollback_last e if_name pf_name vf rest w found =
      rw (found, run_deferred_calls)
        (bind_unit
          (ignore {F = Error} (release_vf h conf if_name args.container_id netns pf_name vf))
          (run_deferred_calls h args netns conf none rest) (look_up h args netns if_name w).1
          (run_deferred_calls-none rest))
