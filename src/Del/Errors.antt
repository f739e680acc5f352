-- ===== src/Del/Errors.antt =====
-- What DEL does with the errors of a release.
use rit_k8s_rdma_sriov_cni.Base.{arith, inl, inr, ◌≡◌, List, [], ◌∷◌}
use rit_k8s_rdma_sriov_cni.Go.{Error, err}
use rit_k8s_rdma_sriov_cni.Go.Laws.{bind-err}
use rit_k8s_rdma_sriov_cni.Conf.{NetConf}
use rit_k8s_rdma_sriov_cni.Host.{Host, NetInterface, PfInfo}
use rit_k8s_rdma_sriov_cni.Add.Interfaces.{CmdArgs}
use rit_k8s_rdma_sriov_cni.Del.{release_interface, release_interfaces}

module _ {W : Type 0} (h : Host W) (args : CmdArgs) (pfs : List PfInfo) where
  release_interface-no_err :
      (n : NetConf) (intf : NetInterface) (w : W) (e : Error)
      → ¬ ((release_interface h n args pfs intf w).0 ≡ err e)
  unfolding release_interface
  release_interface-no_err n intf w e p = ground arith

  -- The loop over a pod's interfaces never ends with an error: whatever the release of an interface
  -- answers, it returns, panics or ends the process.
  pub release_interfaces-no_err :
      (n : NetConf) (interfaces : List NetInterface) (w : W) (e : Error)
      → ¬ ((release_interfaces h n args pfs interfaces w).0 ≡ err e)
  unfolding release_interfaces
  release_interfaces-no_err n [] w e p = cc
  release_interfaces-no_err n (intf ∷ rest) w e p =
      elim (bind-err (release_interface h n args pfs intf)
        (λ n'. release_interfaces h n' args pfs rest) w p) [
          | inl q ↦ release_interface-no_err n intf w e q
          | inr (n', q) ↦ release_interfaces-no_err n' rest _ e q
        ]
