-- ===== src/Add/Success.antt =====
-- What an ADD that succeeds does for the pod's interfaces, as a relation.
pub mod Needed
pub mod Enough
pub mod Command
pub mod Exactly
use rit_k8s_rdma_sriov_cni.Base.{
  ℕ, suc, ◌≡◌, refl, sym, ap, ◌∙◌, subst, ◌↔◌, inl, inr, String, ◌<>◌, Bool, true, false, ◌||◌,
  Bool-cases, Option, none, some, Option-cases, List, [], ◌∷◌, get_elem?, if◌then◌else◌,
}
use rit_k8s_rdma_sriov_cni.Go.{
  Error, Outcome, ok, Run, Tried, success, failure, panics, pure, attempt, ◌>>=◌, ◌>>◌,
}
use rit_k8s_rdma_sriov_cni.Go.Laws.{
  by_parts_eq, bind_eq, attempt_eq, attempt-success_eq, if_true, if_false,
}
use rit_k8s_rdma_sriov_cni.Go.Strconv.{itoa}
use rit_k8s_rdma_sriov_cni.Cni.{IpConfig020, IpamResult, CurrentResult}
use rit_k8s_rdma_sriov_cni.Conf.{NetConf}
use rit_k8s_rdma_sriov_cni.Host.{Host, Ns, InterfaceRequest, PfInfo}
use rit_k8s_rdma_sriov_cni.Setup.{VfFailure, VfSetup, setup_vf}
use rit_k8s_rdma_sriov_cni.Add.Interfaces.{
  CmdArgs, Deferred, rollback, release_ipam, Progress, Ending, element, returns, print_error,
  collect, after_configure, configure, after_ipam, address_interface, after_setup, add_interface,
  add_interfaces,
}

module _ {W : Type 0} (h : Host W) (args : CmdArgs) (netns : Ns) (requests : List InterfaceRequest)
    (pfs : List PfInfo) where
  -- The progress after an interface whose VF `s` was taken, with address `ip4`
  abbrev pub with_interface : Progress → String → String → VfSetup → IpConfig020 → Progress
  with_interface p if_name pf_name s ip4 = record {
    conf = s.conf;
    deferred = release_ipam ∷ rollback if_name pf_name (some s.vf_idx) ∷ p.deferred;
    final = collect h.new_result_from_result if_name s.conf.dns ip4 p.final;
  }

  -- Interface `i` is added: a VF of the PF is set up, in neither DPDK mode nor L2 mode, the IPAM
  -- plugin answers with an IPv4 address, and the interface is configured in the pod.
  pub record IsAdded (placement i : ℕ) (p : Progress) (w : W) (p' : Progress) (w' : W)
      : Type 0 where
    pub pf : PfInfo
    pub request : InterfaceRequest
    pub s : VfSetup
    pub result : IpamResult
    pub ip4 : IpConfig020
    pub taken : W
    pub answered : W
    pub at_placement : get_elem? pfs placement ≡ some pf
    pub requested : get_elem? requests i ≡ some request
    pub sets_up :
        setup_vf h p.conf pf.name ("eth" <> itoa i) args.container_id netns request w
        ≡ (ok s, taken)
    pub plain : (s.conf.dpdk_mode || s.conf.l2_mode) ≡ false
    pub answers : h.exec_add s.conf.ipam_type args.stdin_data taken ≡ (ok result, answered)
    pub has_ip4 : result.ip4 ≡ some ip4
    pub configures :
        h.do_in_ns netns (h.configure_iface ("eth" <> itoa i) result) answered ≡ (ok tt, w')
    pub progress : with_interface p ("eth" <> itoa i) pf.name s ip4 ≡ p'

  -- One interface after the other, from number `i` on
  pub data Adds : List ℕ → ℕ → Progress → W → Progress → W → Type 0 where
    finished : {i : ℕ} {p : Progress} {w : W} → Adds [] i p w p w
    next :
        {placement i : ℕ} {rest : List ℕ} {p p' q : Progress} {w w' u : W}
        → IsAdded placement i p w p' w'
        → Adds rest (suc i) p' w' q u
        → Adds (placement ∷ rest) i p w q u
