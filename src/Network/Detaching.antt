-- ===== src/Network/Detaching.antt =====
-- `releaseVFCustom` in the view of the devices: where the device of a VF is left.
use rit_k8s_rdma_sriov_cni.Base.{ℕ, String, false, Option, List, ◌≡◌, sym, ap, ◌∙◌, subst}
use rit_k8s_rdma_sriov_cni.Go.{ok, ◌orelse◌, deferring}
use rit_k8s_rdma_sriov_cni.Go.Laws.{
  by_parts_eq, orelse-ok_eq, if_false, deferring-ok_eq, bind_eq, orelse_eq,
}
use rit_k8s_rdma_sriov_cni.Conf.{NetConf, max_shared_vf}
use rit_k8s_rdma_sriov_cni.Host.{Host, Ns, NetInterface, PfInfo, VfInfo}
use rit_k8s_rdma_sriov_cni.Scratch.{get_net_conf}
use rit_k8s_rdma_sriov_cni.Release.{sees_shared}
use rit_k8s_rdma_sriov_cni.ReleaseCustom.{
  custom_rounds, release_links, enter_pod, custom_netdev, release_by_mode, release_vf_custom,
  find_vf_of, with_flag, unreleased,
}
use rit_k8s_rdma_sriov_cni.Network.{
  View, Left, Placed, Only-refl, Only-trans, Same-trans, Same-Puts, Puts-Same, quiet_at, Obeys,
}
use rit_k8s_rdma_sriov_cni.Network.Quiet.{
  orelse-IsQuiet, pure-IsQuiet, sees_shared-IsQuiet, get_net_conf-IsQuiet,
}
use rit_k8s_rdma_sriov_cni.Network.Rounds.{custom_rounds-Puts}

module _ {W : Type 0} (h : Host W) (v : View W) (law : Obeys h v) where
  -- An interface that the release does not take for shared
  release_links-Left :
      (conf : NetConf) (pod_if_name : String) (initns : Ns) (found : Option VfInfo × String)
      (id : ℕ) (w u : W)
      → Placed v id (v.current w) pod_if_name w
      → release_links h conf pod_if_name initns found w ≡ (ok false, u)
      → Left v id (v.space initns) w u
  unfolding release_links
  release_links-Left conf pod_if_name initns (found, pf_name) id w u placed e =
      by_parts_eq (sees_shared h conf pod_if_name orelse with_flag conf.shared_vf) _ w e
        λ shared w1 saw e1.
          by_parts_eq
            (custom_rounds h conf pod_if_name initns shared pf_name found max_shared_vf 1
              orelse with_flag shared)
            _ w1 e1
            λ _ w2 ran e2.
              let alone : shared ≡ false = cc (ap (λ r. r.0) e2) in
              let same =
                quiet_at v (orelse-IsQuiet v _ (sees_shared-IsQuiet h v law conf pod_if_name))
                  saw in
              let here : Placed v id (v.current w1) pod_if_name w1 = (
                ap (λ d. d.ns_of id) same.0 ∙ placed.0 ∙ sym same.1,
                ap (λ d. d.name_of id) same.0 ∙ placed.1,
              ) in
              let (index, put) =
                custom_rounds-Puts h v law conf pod_if_name pf_name initns found 1 id w1 w2 here (
                  subst
                    (λ b.
                      custom_rounds h conf pod_if_name initns b pf_name found max_shared_vf 1 w1
                      ≡ (ok tt, w2))
                    alone
                    (orelse-ok_eq
                      (custom_rounds h conf pod_if_name initns shared pf_name found max_shared_vf 1)
                      (with_flag shared) w1 ran)) in
              let all =
                Puts-Same v (Same-Puts v same put) (quiet_at v (pure-IsQuiet v shared) e2) in
              ((index, all.placed), all.others)

  after-Left :
      {id ns : ℕ} {w w' u u' : W}
      → v.devices w' ≡ v.devices w
      → v.devices u' ≡ v.devices u
      → Left v id ns w' u
      → Left v id ns w u'
  after-Left {id} p q ((index, placed), others) = (
    (index, (ap (λ d. d.ns_of id) q ∙ placed.0, ap (λ d. d.name_of id) q ∙ placed.1)),
    Only-trans (Only-refl {id = id} p) (Only-trans others (Only-refl q)),
  )

  enter_pod-Left :
      (conf : NetConf) (pod_if_name : String) (netns initns : Ns) (found : Option VfInfo × String)
      (id : ℕ) (w u : W)
      → Placed v id (v.space netns) pod_if_name w
      → enter_pod h conf pod_if_name netns initns found w ≡ (ok false, u)
      → Left v id (v.space initns) w u
  unfolding enter_pod
  enter_pod-Left conf pod_if_name netns initns found id w u placed e =
      by_parts_eq
        (h.set_ns netns orelse unreleased conf.shared_vf "failed to enter pod netns %q: %v") _ w e
        λ _ w1 entered e1.
          let set = orelse-ok_eq (h.set_ns netns) _ w entered in
          let (w3, left, closed) =
            deferring-ok_eq (h.close_ns netns)
              (deferring (h.set_ns initns) (release_links h conf pod_if_name initns found)) w1 e1 in
          let (w2, ran, back) =
            deferring-ok_eq (h.set_ns initns) (release_links h conf pod_if_name initns found) w1
              left in
          let same : v.devices w1 ≡ v.devices w =
            ap (λ r. v.devices r.1) (sym set) ∙ law.setting_ns netns w in
          let here : Placed v id (v.current w1) pod_if_name w1 = (
            ap (λ d. d.ns_of id) same ∙ placed.0 ∙ sym (law.sets_ns netns w w1 set),
            ap (λ d. d.name_of id) same ∙ placed.1,
          ) in
          after-Left same
            (ap v.devices (sym closed)
              ∙ ((law.closing_ns netns).same w3).0
              ∙ ap v.devices (sym back)
              ∙ law.setting_ns initns w2)
            (release_links-Left conf pod_if_name initns found id w1 w2 here ran)

  custom_netdev-Left :
      (conf : NetConf) (pod_if_name : String) (netns : Ns) (found : Option VfInfo × String) (id : ℕ)
      (w u : W)
      → Placed v id (v.space netns) pod_if_name w
      → custom_netdev h conf pod_if_name netns found w ≡ (ok false, u)
      → Left v id (v.current w) w u
  unfolding custom_netdev
  custom_netdev-Left conf pod_if_name netns found id w u placed e =
      by_parts_eq
        (h.get_current_ns
          orelse unreleased conf.shared_vf "failed to get init the current netns: %v")
        _ w e
        λ initns w1 got e1.
          let same = quiet_at v (orelse-IsQuiet v _ law.getting_current) got in
          let home : v.space initns ≡ v.current w =
            law.gets_current initns w w1 (orelse-ok_eq h.get_current_ns _ w got) in
          let (w2, ran, closed) =
            deferring-ok_eq (h.close_ns initns) (enter_pod h conf pod_if_name netns initns found) w1
              e1 in
          subst (λ ns. Left v id ns w u) home
            (after-Left same.0 (ap v.devices (sym closed) ∙ ((law.closing_ns initns).same w2).0) (
              enter_pod-Left conf pod_if_name netns initns found id w1 w2
                (ap (λ d. d.ns_of id) same.0 ∙ placed.0, ap (λ d. d.name_of id) same.0 ∙ placed.1)
                ran))

  -- A release on DEL that succeeds without taking the interface for shared, where the saved
  -- configuration is not in DPDK mode: the device that had the interface's name in the pod's
  -- namespace is in the namespace in which the thread was, under a name of `dev` and a number, and no
  -- other device has changed. It is assumed that the host obeys the view.
  pub release_vf_custom-Left :
      (conf nf : NetConf) (intf : NetInterface) (cid pod_net_ns : String) (pfs : List PfInfo)
      (netns : Ns) (id : ℕ) (w x y u : W)
      → h.get_ns pod_net_ns w ≡ (ok netns, x)
      → get_net_conf h.files h.json cid intf.name conf.cni_dir x ≡ (ok nf, y)
      → nf.dpdk_mode ≡ false
      → Placed v id (v.space netns) intf.name w
      → release_vf_custom h conf intf cid pod_net_ns pfs w ≡ (ok false, u)
      → Left v id (v.current w) w u
  unfolding release_vf_custom release_by_mode
  release_vf_custom-Left conf nf intf cid pod_net_ns pfs netns id w x y u opened read netdev placed
        e =
      let rest =
        sym (
          bind_eq
            (h.get_ns pod_net_ns
              orelse unreleased conf.shared_vf "failed to open pod netnamespace %q: %v")
            (λ ns. deferring (h.close_ns ns) (release_by_mode h conf intf cid ns pfs)) w
            (orelse_eq (h.get_ns pod_net_ns) _ w opened))
        ∙ e in
      let (z, ran, closed) =
        deferring-ok_eq (h.close_ns netns) (release_by_mode h conf intf cid netns pfs) x rest in
      let by_mode =
        sym (
          bind_eq
            (get_net_conf h.files h.json cid intf.name conf.cni_dir orelse with_flag conf.shared_vf)
            _ x (orelse_eq (get_net_conf h.files h.json cid intf.name conf.cni_dir) _ x read))
        ∙ ran in
      let same =
        Same-trans v (quiet_at v (law.getting_ns pod_net_ns) opened)
          (quiet_at v (get_net_conf-IsQuiet h v law cid intf.name conf.cni_dir) read) in
      subst (λ ns. Left v id ns w u) same.1
        (after-Left same.0 (ap v.devices (sym closed) ∙ ((law.closing_ns netns).same z).0) (
          custom_netdev-Left conf intf.name netns (find_vf_of h intf.mac pfs) id y z
            (ap (λ d. d.ns_of id) same.0 ∙ placed.0, ap (λ d. d.name_of id) same.0 ∙ placed.1)
            (sym (if_false nf.dpdk_mode _ _ y netdev) ∙ by_mode)))
