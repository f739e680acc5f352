-- ===== src/Add/Modes.antt =====
-- `cmdAdd` in L2 mode and in DPDK mode.
use rit_k8s_rdma_sriov_cni.Base.{
  ℕ, String, ◌<>◌, ◌≡◌, ap, ◌∙◌, true, ◌||◌, none, List, [], ◌∷◌, arith, refl,
}
use rit_k8s_rdma_sriov_cni.Go.{Outcome, ok, err, exit, panic, Tried, success, failure, attempt}
use rit_k8s_rdma_sriov_cni.Go.Laws.{by_parts, attempt-success}
use rit_k8s_rdma_sriov_cni.Go.Strconv.{itoa}
use rit_k8s_rdma_sriov_cni.Conf.{NetConf}
use rit_k8s_rdma_sriov_cni.Host.{Host, Ns, InterfaceRequest, PfInfo}
use rit_k8s_rdma_sriov_cni.Setup.{VfFailure, VfSetup, setup_vf}
use rit_k8s_rdma_sriov_cni.Setup.Result.{setup_vf-IsSetUp}
use rit_k8s_rdma_sriov_cni.Add.{add_pod, after_interfaces}
use rit_k8s_rdma_sriov_cni.Add.Interfaces.{
  CmdArgs, Progress, Ending, element, address_interface, after_setup, add_interface, add_interfaces,
  run_deferred_calls,
}

-- No address is asked for.
abbrev pub Unaddressed : NetConf → Type 0
Unaddressed conf = (conf.dpdk_mode || conf.l2_mode) ≡ true

module _ {W : Type 0} (h : Host W) (args : CmdArgs) (netns : Ns) where
  -- No interface is added.
  address_interface-fails :
      (p : Progress) (if_name : String) (w : W) (p' : Progress)
      → Unaddressed p.conf
      → ¬ ((address_interface h args netns p if_name w).0 ≡ ok p')
  unfolding address_interface
  address_interface-fails p if_name w p' mode e = ground arith

  after_setup-fails :
      (p : Progress) (if_name pf_name : String) (taken : Tried VfFailure VfSetup) (w : W)
      (p' : Progress)
      → ((s : VfSetup) → taken ≡ success s → Unaddressed s.conf)
      → ¬ ((after_setup h args netns p if_name pf_name taken w).0 ≡ ok p')
  unfolding after_setup
  after_setup-fails p if_name pf_name (failure f) w p' mode e = cc
  after_setup-fails p if_name pf_name (success s) w p' mode e =
      address_interface-fails _ if_name w p' (mode s refl) e

  pub keeps_mode :
      (conf : NetConf) (if_name pod_if_name cid : String) (request : InterfaceRequest) (w : W)
      (s : VfSetup)
      → Unaddressed conf
      → (setup_vf h conf if_name pod_if_name cid netns request w).0 ≡ ok s
      → Unaddressed s.conf
  keeps_mode conf if_name pod_if_name cid request w s mode e =
      let (_, _, _, done, _) = setup_vf-IsSetUp h conf if_name pod_if_name cid netns request w e in
      rw (done.settings.dpdk_mode, done.settings.l2_mode) mode

  add_interface-fails :
      (requests : List InterfaceRequest) (pfs : List PfInfo) (placement i : ℕ) (p : Progress)
      (w : W) (p' : Progress)
      → Unaddressed p.conf
      → ¬ ((add_interface h args netns requests pfs placement i p w).0 ≡ ok p')
  unfolding add_interface
  add_interface-fails requests pfs placement i p w p' mode e =
      by_parts (element pfs placement) _ w e λ pf w1 _ e1.
        by_parts (element requests i) _ w1 e1 λ request w2 _ e2.
          by_parts
            (attempt (setup_vf h p.conf pf.name ("eth" <> itoa i) args.container_id netns request))
            _ w2 e2
            λ taken w3 ran e3.
              after_setup-fails p ("eth" <> itoa i) pf.name taken w3 p'
                (λ s is_s.
                  keeps_mode p.conf pf.name ("eth" <> itoa i) args.container_id request w2 s mode (
                    attempt-success {F = Ending}
                      (setup_vf h p.conf pf.name ("eth" <> itoa i) args.container_id netns request)
                      w2 (ap (λ r. r.0) ran ∙ ap ok is_s)))
                e3

  after_interfaces-fails :
      (r : Outcome Ending Progress) (w : W)
      → ((p' : Progress) → ¬ (r ≡ ok p'))
      → ¬ ((after_interfaces h args netns r w).0 ≡ ok tt)
  unfolding after_interfaces
  after_interfaces-fails (ok p) w none_ok e = none_ok p refl
  after_interfaces-fails (err e) w none_ok d =
      by_parts (run_deferred_calls h args netns e.progress.conf e.err_var e.progress.deferred) _ w d
        λ _ v _ failed. cc
  after_interfaces-fails exit w none_ok e = cc
  after_interfaces-fails panic w none_ok e = cc

  -- In L2 mode and in DPDK mode an ADD for a pod with an interface never succeeds.
  pub add_pod-fails :
      (conf : NetConf) (placement : ℕ) (rest : List ℕ) (requests : List InterfaceRequest)
      (pfs : List PfInfo) (w : W)
      → Unaddressed conf
      → ¬ ((add_pod h args conf netns (placement ∷ rest) requests pfs w).0 ≡ ok tt)
  unfolding add_pod add_interfaces
  add_pod-fails conf placement rest requests pfs w mode = after_interfaces-fails _ _ λ p' e.
      by_parts
        (add_interface h args netns requests pfs placement 0
          (record { conf = conf; deferred = []; final = none }))
        _ w e
        λ p1 w1 ran _.
          add_interface-fails requests pfs placement 0
            (record { conf = conf; deferred = []; final = none }) w p1 mode (ap (λ r. r.0) ran)
