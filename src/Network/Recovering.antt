-- ===== src/Network/Recovering.antt =====
-- An ADD that fails after the setup of a VF, in the view of the devices: the deferred calls of
-- `cmdAdd`.
use rit_k8s_rdma_sriov_cni.Base.{
  ◌≡◌, ◌≢◌, false, ap, ◌∙◌, subst, String, ℕ, Option, some, List, [], ◌∷◌,
}
use rit_k8s_rdma_sriov_cni.Go.{Error, ok, success, pure, ignore, forget, ◌>>◌}
use rit_k8s_rdma_sriov_cni.Go.Laws.{attempt-success_eq}
use rit_k8s_rdma_sriov_cni.Go.Strconv.{ℤ}
use rit_k8s_rdma_sriov_cni.Conf.{NetConf}
use rit_k8s_rdma_sriov_cni.Host.{Host, Ns, InterfaceRequest}
use rit_k8s_rdma_sriov_cni.Device.{get_sriov_numfs}
use rit_k8s_rdma_sriov_cni.Scratch.{get_net_conf}
use rit_k8s_rdma_sriov_cni.Setup.{VfSetup, Choice, rounds_of, choose_vf, setup_vf}
use rit_k8s_rdma_sriov_cni.Release.{release_vf}
use rit_k8s_rdma_sriov_cni.Add.Interfaces.{CmdArgs, Deferred, rollback, look_up, run_deferred_calls}
use rit_k8s_rdma_sriov_cni.Add.Rollback.{rollback_last}
use rit_k8s_rdma_sriov_cni.Network.{
  View, Moved, Left, Returned, Same, Same-trans, Only-refl, Only-trans, Placed, Obeys,
}
use rit_k8s_rdma_sriov_cni.Network.Quiet.{bind-IsQuiet, pure-IsQuiet}
use rit_k8s_rdma_sriov_cni.Network.Rounds.{do_in_ns-Same}
use rit_k8s_rdma_sriov_cni.Network.Placing.{setup_vf-Moved}
use rit_k8s_rdma_sriov_cni.Network.Undoing.{release_vf-Left}

module _ {W : Type 0} (h : Host W) (v : View W) (law : Obeys h v) (args : CmdArgs)
    (netns : Ns) where
  look_up-Same :
      (if_name : String) (w u : W)
      → look_up h args netns if_name w ≡ (ok (success tt), u)
      → Same v w u
  unfolding look_up
  look_up-Same if_name w u e =
      do_in_ns-Same h v law netns (h.link_by_name if_name >> pure tt) w u
        (bind-IsQuiet v (law.looking if_name) λ _. pure-IsQuiet v tt)
        (attempt-success_eq {F = Error} (h.do_in_ns netns (h.link_by_name if_name >> pure tt)) w e)

  -- The rollback once the device was moved
  undone-Returned :
      (conf nf : NetConf) (if_name pf_name info : String) (vf : Option ℕ) (w u w' x y u' : W)
      → Moved v info (v.space netns) if_name w u
      → Same v u w'
      → Same v w' x
      → conf.l2_mode ≡ false
      → conf.shared_vf ≡ false
      → get_net_conf h.files h.json args.container_id if_name conf.cni_dir x ≡ (ok nf, y)
      → nf.dpdk_mode ≡ false
      → release_vf h conf if_name args.container_id netns pf_name vf x ≡ (ok tt, u')
      → Returned v info w u'
  undone-Returned conf nf if_name pf_name info vf w u w' x y u' (id, was, put) same same' plain
        alone read netdev released =
      let all = Same-trans v same same' in
      let here : Placed v id (v.space netns) if_name x =
        (ap (λ d. d.ns_of id) all.0 ∙ put.placed.0, ap (λ d. d.name_of id) all.0 ∙ put.placed.1) in
      let ((placed, others), _) =
        release_vf-Left h v law conf nf if_name args.container_id pf_name netns vf id x y u' plain
          alone read netdev here released in
      (
        id,
        was,
        subst (λ ns. Left v id ns w u') (all.1 ∙ put.stays)
            (placed, Only-trans put.others (Only-trans (Only-refl {id = id} all.0) others)),
      )

  -- An ADD sets up a VF outside DPDK mode, whose one device is not called eth0, and later fails, while
  -- the rollback of that interface is the deferred call to run first. If the rollback finds the
  -- interface in the pod, and its `releaseVF` succeeds, then after all deferred calls the device is
  -- in the namespace again from which it was taken, under a name of `dev` and a number, and no other
  -- device has changed. It is assumed that the host obeys the view, that between the setup and the
  -- deferred calls nothing changes a device's place or name, and that the configuration is neither in
  -- L2 mode nor marked as shared, and the saved one is not in DPDK mode.
  pub run_deferred_calls-setup_vf :
      (conf conf' nf : NetConf) (e : Error) (pf_name if_name info : String)
      (request : InterfaceRequest) (vf : Option ℕ) (rest : List Deferred) (total : ℤ) (c : Choice)
      (s : VfSetup) (w x y u w' x' y' u' : W)
      → conf.dpdk_mode ≡ false
      → get_sriov_numfs h.files pf_name (h.link_by_name pf_name w).1 ≡ (ok total, x)
      → choose_vf h conf pf_name request (rounds_of total) x ≡ (ok c, y)
      → c.infos ≡ info ∷ []
      → info ≢ "eth0"
      → setup_vf h conf pf_name if_name args.container_id netns request w ≡ (ok s, u)
      → Same v u w'
      → look_up h args netns if_name w' ≡ (ok (success tt), x')
      → conf'.l2_mode ≡ false
      → conf'.shared_vf ≡ false
      → get_net_conf h.files h.json args.container_id if_name conf'.cni_dir x' ≡ (ok nf, y')
      → nf.dpdk_mode ≡ false
      → release_vf h conf' if_name args.container_id netns pf_name vf x' ≡ (ok tt, u')
      → (run_deferred_calls h args netns conf' (some e) (rollback if_name pf_name vf ∷ rest) w'
          ≡ (ok tt, u'))
        × Returned v info w u'
  run_deferred_calls-setup_vf conf conf' nf e pf_name if_name info request vf rest total c s w x y u
        w' x' y' u' netdev counted chose one ne set same found plain alone read back released =
      (
        rollback_last h args netns conf' e if_name pf_name vf rest w' (ap (λ r. r.0) found)
            ∙ ap
                (λ r.
                  ignore {F = Error} (release_vf h conf' if_name args.container_id netns pf_name vf)
                    r.1)
                found
            ∙ ap (λ r. (forget {F = Error} r.0, r.1)) released,
        undone-Returned conf' nf if_name pf_name info vf w u w' x' y' u'
            (setup_vf-Moved h v law conf pf_name if_name args.container_id netns request total c
              info w x y u s netdev counted chose one ne set)
            same (look_up-Same if_name w' x' found) plain alone read back released,
      )
