-- ===== src/Network/Leaving.antt =====
-- `releaseVFCustom` in the view of the devices, however it ends.
use rit_k8s_rdma_sriov_cni.Base.{ℕ, ◌≡◌, refl, sym, ap, ◌∙◌, String, Option, List}
use rit_k8s_rdma_sriov_cni.Go.{ok, run_deferred, ◌orelse◌}
use rit_k8s_rdma_sriov_cni.Go.Laws.{anyhow, orelse-ok_eq}
use rit_k8s_rdma_sriov_cni.Conf.{NetConf}
use rit_k8s_rdma_sriov_cni.Host.{Host, Ns, NetInterface, PfInfo, VfInfo}
use rit_k8s_rdma_sriov_cni.Device.{enable_dpdk_mode}
use rit_k8s_rdma_sriov_cni.Release.{release_dpdk}
use rit_k8s_rdma_sriov_cni.ReleaseCustom.{
  release_links, enter_pod, custom_netdev, release_dpdk_mode, release_by_mode, release_vf_custom,
  unreleased, find_vf_of,
}
use rit_k8s_rdma_sriov_cni.Add.Interfaces.{CmdArgs}
use rit_k8s_rdma_sriov_cni.Network.{View, Devices, quiet_at, Obeys}
use rit_k8s_rdma_sriov_cni.Network.Quiet.{get_net_conf-IsQuiet}
use rit_k8s_rdma_sriov_cni.Network.Confining.{Spares}
use rit_k8s_rdma_sriov_cni.Network.Guarding.{Foreign-same}
use rit_k8s_rdma_sriov_cni.Network.Isolating.{release_links-Guards}
use rit_k8s_rdma_sriov_cni.Network.Sheltering.{
  Shelters, Sheltered, IsSheltered, still_call, quiet_call, bind-IsSheltered, orelse-IsSheltered,
  after_deferred, deferring-IsSheltered, if-IsSheltered,
}

module _ {W : Type 0} (h : Host W) (v : View W) (law : Obeys h v) (spares : Spares h v)
    (shelters : Shelters h v) (args : CmdArgs) (pod : ℕ) (start : Devices) where
  enter_pod-IsSheltered :
      (conf : NetConf) (pod_if_name : String) (netns initns : Ns) (found : Option VfInfo × String)
      → v.space netns ≡ pod
      → IsSheltered v pod start (enter_pod h conf pod_if_name netns initns found)
  unfolding enter_pod
  enter_pod-IsSheltered conf pod_if_name netns initns found there = record {
    keeps = λ w f.
        anyhow (Sheltered v pod start)
          (h.set_ns netns orelse unreleased conf.shared_vf "failed to enter pod netns %q: %v") _ w
          (Foreign-same f (law.setting_ns netns w))
          λ _ w1 entered.
            let set = orelse-ok_eq (h.set_ns netns) _ w entered in
            let f1 = Foreign-same f (ap (λ r. v.devices r.1) (sym set) ∙ law.setting_ns netns w) in
            let released = release_links h conf pod_if_name initns found w1 in
            let back = run_deferred released.0 (h.set_ns initns) released.1 in
            after_deferred v pod start back.0 back.1
              (after_deferred v pod start released.0 released.1
                ((release_links-Guards h v law spares pod start conf pod_if_name initns found).runs
                  w1 (f1, law.sets_ns netns w w1 set ∙ there)).0
                (still_call v pod start (law.setting_ns initns)))
              (quiet_call v pod start (law.closing_ns netns));
  }

  custom_netdev-IsSheltered :
      (conf : NetConf) (pod_if_name : String) (netns : Ns) (found : Option VfInfo × String)
      → v.space netns ≡ pod
      → IsSheltered v pod start (custom_netdev h conf pod_if_name netns found)
  unfolding custom_netdev
  custom_netdev-IsSheltered conf pod_if_name netns found there =
      bind-IsSheltered v pod start
        (orelse-IsSheltered v pod start _ (quiet_call v pod start law.getting_current))
        λ initns.
          deferring-IsSheltered v pod start (quiet_call v pod start (law.closing_ns initns))
            (enter_pod-IsSheltered conf pod_if_name netns initns found there)

  pub release_dpdk-IsSheltered :
      (nf : NetConf) (pf_name : String) → IsSheltered v pod start (release_dpdk h nf pf_name)
  unfolding release_dpdk enable_dpdk_mode
  release_dpdk-IsSheltered nf pf_name =
      bind-IsSheltered v pod start
        (orelse-IsSheltered v pod start _
          (orelse-IsSheltered v pod start _ (still_call v pod start (shelters.running _))))
        λ _.
          bind-IsSheltered v pod start
            (orelse-IsSheltered v pod start _ (quiet_call v pod start (law.looking pf_name)))
            λ l. orelse-IsSheltered v pod start _ (quiet_call v pod start (law.setting_vlan l _ _))

  release_by_mode-IsSheltered :
      (conf : NetConf) (intf : NetInterface) (netns : Ns) (pfs : List PfInfo)
      → v.space netns ≡ pod
      → IsSheltered v pod start (release_by_mode h conf intf args.container_id netns pfs)
  unfolding release_by_mode release_dpdk_mode
  release_by_mode-IsSheltered conf intf netns pfs there =
      bind-IsSheltered v pod start
        (orelse-IsSheltered v pod start _ (
          quiet_call v pod start
            (get_net_conf-IsQuiet h v law args.container_id intf.name conf.cni_dir)))
        λ nf.
          if-IsSheltered v pod start nf.dpdk_mode
            (bind-IsSheltered v pod start
              (orelse-IsSheltered v pod start _
                (release_dpdk-IsSheltered nf (find_vf_of h intf.mac pfs).1))
              λ _. still_call v pod start λ w. refl)
            (custom_netdev-IsSheltered conf intf.name netns (find_vf_of h intf.mac pfs) there)

  module _
      (in_pod : (ns : Ns) (y z : W) → h.get_ns args.netns y ≡ (ok ns, z) → v.space ns ≡ pod) where
    pub release_vf_custom-IsSheltered :
        (conf : NetConf) (intf : NetInterface) (pfs : List PfInfo)
        → IsSheltered v pod start (release_vf_custom h conf intf args.container_id args.netns pfs)
    unfolding release_vf_custom
    release_vf_custom-IsSheltered conf intf pfs = record {
      keeps = λ w f.
          anyhow (Sheltered v pod start)
            (h.get_ns args.netns
              orelse unreleased conf.shared_vf "failed to open pod netnamespace %q: %v")
            _ w (Foreign-same f ((law.getting_ns args.netns).same w).0)
            λ netns w1 opened.
              let opens = orelse-ok_eq (h.get_ns args.netns) _ w opened in
              (deferring-IsSheltered v pod start (quiet_call v pod start (law.closing_ns netns))
                  (release_by_mode-IsSheltered conf intf netns pfs (in_pod netns w w1 opens))).keeps
                w1 (Foreign-same f (quiet_at v (law.getting_ns args.netns) opens).0);
    }
