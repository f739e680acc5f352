-- ===== src/Network/Undoing.antt =====
-- `releaseVF`, the rollback of an ADD, in the view of the devices.
use rit_k8s_rdma_sriov_cni.Base.{
  ℕ, suc, String, ◌<>◌, false, Option, none, some, [], ◌≡◌, sym, ap, ◌∙◌, subst,
}
use rit_k8s_rdma_sriov_cni.Go.{wrapf, ok, ◌orelse◌}
use rit_k8s_rdma_sriov_cni.Go.Strconv.{itoa}
use rit_k8s_rdma_sriov_cni.Go.Laws.{by_parts_eq, bind_eq, orelse-ok_eq, if_false}
use rit_k8s_rdma_sriov_cni.Conf.{NetConf, max_shared_vf}
use rit_k8s_rdma_sriov_cni.Host.{Host, Ns}
use rit_k8s_rdma_sriov_cni.Device.{set_vf_bandwidth_limits}
use rit_k8s_rdma_sriov_cni.Scratch.{get_net_conf}
use rit_k8s_rdma_sriov_cni.Release.{
  detach, sees_shared, round_names, reset_rates, release_rounds, release_netdev, release_vf,
}
use rit_k8s_rdma_sriov_cni.Network.{
  View, Left, Placed, Same, Puts, Only-refl, Only-trans, Puts-Same, quiet_at, Obeys,
}
use rit_k8s_rdma_sriov_cni.Network.Quiet.{
  orelse-IsQuiet, pure-IsQuiet, set_vf_bandwidth_limits-IsQuiet, get_net_conf-IsQuiet,
}
use rit_k8s_rdma_sriov_cni.Network.Rounds.{do_in_ns-Same, detach-Puts}

module _ {W : Type 0} (h : Host W) (v : View W) (law : Obeys h v) where
  reset_rates-Same :
      (initns : Ns) (pf_name : String) (vf_number : Option ℕ) (w u : W)
      → reset_rates h initns pf_name vf_number w ≡ (ok tt, u)
      → Same v w u
  unfolding reset_rates
  reset_rates-Same initns pf_name none w u e = quiet_at v (pure-IsQuiet v tt) e
  reset_rates-Same initns pf_name (some vf) w u e =
      let resetting =
        set_vf_bandwidth_limits h.processes pf_name (itoa vf) "0" "0"
        orelse wrapf "Failed resetting bandwidth limits: %s" [] in
      do_in_ns-Same h v law initns resetting w u
        (orelse-IsQuiet v _ (set_vf_bandwidth_limits-IsQuiet h v law pf_name (itoa vf) "0" "0"))
        (orelse-ok_eq (h.do_in_ns initns resetting) (wrapf "failed to reset min/max speed: %v" []) w
          e)

  -- The one round for an interface that is not shared
  release_rounds-Puts :
      (conf : NetConf) (pod_if_name pf_name : String) (initns : Ns) (vf_number : Option ℕ)
      (left id : ℕ) (w u : W)
      → Placed v id (v.current w) pod_if_name w
      → release_rounds h conf pod_if_name initns false pf_name vf_number (suc left) 1 w ≡ (ok tt, u)
      → (index : ℕ) × Puts v id (v.space initns) ("dev" <> itoa index) w u
  unfolding release_rounds round_names
  release_rounds-Puts conf pod_if_name pf_name initns vf_number left id w u placed e =
      by_parts_eq (detach h conf pod_if_name pf_name initns) _ w e λ _ w1 detached e1.
        by_parts_eq (reset_rates h initns pf_name vf_number) _ w1 e1 λ _ w2 reset e2.
          let (index, put) =
            detach-Puts h v law conf pod_if_name pf_name initns id w w1 placed detached in
          (
            index,
            Puts-Same v (Puts-Same v put (reset_rates-Same initns pf_name vf_number w1 w2 reset))
                (quiet_at v (pure-IsQuiet v tt) e2),
          )

  release_netdev-Left :
      (conf : NetConf) (pod_if_name pf_name : String) (netns : Ns) (vf_number : Option ℕ) (id : ℕ)
      (w u : W)
      → conf.l2_mode ≡ false
      → conf.shared_vf ≡ false
      → Placed v id (v.space netns) pod_if_name w
      → release_netdev h conf pod_if_name netns pf_name vf_number w ≡ (ok tt, u)
      → Left v id (v.current w) w u × (v.current u ≡ v.space netns)
  unfolding release_netdev sees_shared
  release_netdev-Left conf pod_if_name pf_name netns vf_number id w u plain alone placed e =
      by_parts_eq (h.get_current_ns orelse wrapf "failed to get init netns: %v" []) _ w e
        λ initns w1 got e1.
          by_parts_eq (h.set_ns netns orelse wrapf "failed to enter netns %q: %v" []) _ w1 e1
            λ _ w2 entered e2.
              by_parts_eq (sees_shared h conf pod_if_name) _ w2 e2 λ shared w3 saw e3.
                let same = quiet_at v (orelse-IsQuiet v _ law.getting_current) got in
                let home : v.space initns ≡ v.current w =
                  law.gets_current initns w w1 (orelse-ok_eq h.get_current_ns _ w got) in
                let set = orelse-ok_eq (h.set_ns netns) _ w1 entered in
                let devices : v.devices w2 ≡ v.devices w =
                  ap (λ r. v.devices r.1) (sym set) ∙ law.setting_ns netns w1 ∙ same.0 in
                let there = law.sets_ns netns w1 w2 set in
                let result = sym (if_false conf.l2_mode _ _ w2 plain) ∙ saw in
                let unshared : shared ≡ false = cc (ap (λ r. r.0) result, alone) in
                let stay : w2 ≡ w3 = ap (λ r. r.1) result in
                let ran =
                  subst
                    (λ x.
                      release_rounds h conf pod_if_name initns false pf_name vf_number max_shared_vf
                        1 x
                      ≡ (ok tt, u))
                    (sym stay)
                    (subst
                      (λ b.
                        release_rounds h conf pod_if_name initns b pf_name vf_number max_shared_vf 1
                          w3
                        ≡ (ok tt, u))
                      unshared e3) in
                let here : Placed v id (v.current w2) pod_if_name w2 = (
                  ap (λ d. d.ns_of id) devices ∙ placed.0 ∙ sym there,
                  ap (λ d. d.name_of id) devices ∙ placed.1,
                ) in
                let (index, put) =
                  release_rounds-Puts conf pod_if_name pf_name initns vf_number 1 id w2 u here
                    ran in
                (
                  (
                    (index, (put.placed.0 ∙ home, put.placed.1)),
                    Only-trans (Only-refl {id = id} devices) put.others,
                  ),
                  put.stays ∙ there,
                )

  -- A `releaseVF` that succeeds, where the configuration is neither in L2 mode nor marked as shared,
  -- and the saved one is not in DPDK mode: the device that had the interface's name in the pod's
  -- namespace is in the namespace in which the thread was, under a name of `dev` and a number, and no
  -- other device has changed. The thread itself is left in the pod's namespace. It is assumed that
  -- the host obeys the view.
  pub release_vf-Left :
      (conf nf : NetConf) (pod_if_name cid pf_name : String) (netns : Ns) (vf_number : Option ℕ)
      (id : ℕ) (w x u : W)
      → conf.l2_mode ≡ false
      → conf.shared_vf ≡ false
      → get_net_conf h.files h.json cid pod_if_name conf.cni_dir w ≡ (ok nf, x)
      → nf.dpdk_mode ≡ false
      → Placed v id (v.space netns) pod_if_name w
      → release_vf h conf pod_if_name cid netns pf_name vf_number w ≡ (ok tt, u)
      → Left v id (v.current w) w u × (v.current u ≡ v.space netns)
  unfolding release_vf
  release_vf-Left conf nf pod_if_name cid pf_name netns vf_number id w x u plain alone read netdev
        placed e =
      let rest =
        sym (bind_eq (get_net_conf h.files h.json cid pod_if_name conf.cni_dir) _ w read) ∙ e in
      let same = quiet_at v (get_net_conf-IsQuiet h v law cid pod_if_name conf.cni_dir) read in
      let (((index, there), others), stays) =
        release_netdev-Left conf pod_if_name pf_name netns vf_number id x u plain alone
          (ap (λ d. d.ns_of id) same.0 ∙ placed.0, ap (λ d. d.name_of id) same.0 ∙ placed.1)
          (sym (if_false nf.dpdk_mode _ _ x netdev) ∙ rest) in
      (
        ((index, (there.0 ∙ same.1, there.1)), Only-trans (Only-refl {id = id} same.0) others),
        stays,
      )
