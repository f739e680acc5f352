-- ===== src/Network/Returning.antt =====
-- A setup and a release one after the other, in the view of the devices.
use rit_k8s_rdma_sriov_cni.Base.{◌≡◌, ◌≢◌, false, ap, ◌∙◌, sym, subst, String, [], ◌∷◌, List}
use rit_k8s_rdma_sriov_cni.Go.{ok}
use rit_k8s_rdma_sriov_cni.Go.Strconv.{ℤ}
use rit_k8s_rdma_sriov_cni.Conf.{NetConf}
use rit_k8s_rdma_sriov_cni.Host.{Host, Ns, InterfaceRequest, NetInterface, PfInfo}
use rit_k8s_rdma_sriov_cni.Device.{get_sriov_numfs}
use rit_k8s_rdma_sriov_cni.Scratch.{get_net_conf}
use rit_k8s_rdma_sriov_cni.Setup.{VfSetup, Choice, rounds_of, choose_vf, setup_vf}
use rit_k8s_rdma_sriov_cni.ReleaseCustom.{release_vf_custom}
use rit_k8s_rdma_sriov_cni.Network.{
  View, Moved, Left, Returned, Only-refl, Only-trans, Placed, Obeys,
}
use rit_k8s_rdma_sriov_cni.Network.Placing.{setup_vf-Moved}
use rit_k8s_rdma_sriov_cni.Network.Detaching.{release_vf_custom-Left}

module _ {W : Type 0} (h : Host W) (v : View W) (law : Obeys h v) where
  -- A release once the device was moved
  after_Moved :
      (conf nf : NetConf) (intf : NetInterface) (cid pod_net_ns info : String) (pfs : List PfInfo)
      (netns netns' : Ns) (w u w' x y u' : W)
      → Moved v info (v.space netns) intf.name w u
      → v.devices w' ≡ v.devices u
      → v.current w' ≡ v.current w
      → v.space netns' ≡ v.space netns
      → h.get_ns pod_net_ns w' ≡ (ok netns', x)
      → get_net_conf h.files h.json cid intf.name conf.cni_dir x ≡ (ok nf, y)
      → nf.dpdk_mode ≡ false
      → release_vf_custom h conf intf cid pod_net_ns pfs w' ≡ (ok false, u')
      → Returned v info w u'
  after_Moved conf nf intf cid pod_net_ns info pfs netns netns' w u w' x y u' (id, was, put) devices
        current space opened read netdev released =
      let here : Placed v id (v.space netns') intf.name w' = (
        ap (λ d. d.ns_of id) devices ∙ put.placed.0 ∙ sym space,
        ap (λ d. d.name_of id) devices ∙ put.placed.1,
      ) in
      let (placed, others) =
        release_vf_custom-Left h v law conf nf intf cid pod_net_ns pfs netns' id w' x y u' opened
          read netdev here released in
      (
        id,
        was,
        subst (λ ns. Left v id ns w u') current
            (placed, Only-trans put.others (Only-trans (Only-refl {id = id} devices) others)),
      )

  -- A `setupVF` that succeeds outside DPDK mode, where the VF that the loop chose has one device that
  -- is not called eth0, and later a release on DEL of that interface that succeeds without taking it
  -- for shared, in a thread of the same namespace: the device is in that namespace again, under a
  -- name of `dev` and a number, and no other device has changed. It is assumed that the host obeys the
  -- view, that between the two nothing changes a device's place or name, and that the configuration
  -- that the release reads is not in DPDK mode.
  release_vf_custom-setup_vf :
      (conf nf : NetConf) (if_name cid pod_net_ns info : String) (intf : NetInterface)
      (request : InterfaceRequest) (pfs : List PfInfo) (netns netns' : Ns) (total : ℤ) (c : Choice)
      (s : VfSetup) (w x y u w' x' y' u' : W)
      → conf.dpdk_mode ≡ false
      → get_sriov_numfs h.files if_name (h.link_by_name if_name w).1 ≡ (ok total, x)
      → choose_vf h conf if_name request (rounds_of total) x ≡ (ok c, y)
      → c.infos ≡ info ∷ []
      → info ≢ "eth0"
      → setup_vf h conf if_name intf.name cid netns request w ≡ (ok s, u)
      → v.devices w' ≡ v.devices u
      → v.current w' ≡ v.current w
      → v.space netns' ≡ v.space netns
      → h.get_ns pod_net_ns w' ≡ (ok netns', x')
      → get_net_conf h.files h.json cid intf.name conf.cni_dir x' ≡ (ok nf, y')
      → nf.dpdk_mode ≡ false
      → release_vf_custom h conf intf cid pod_net_ns pfs w' ≡ (ok false, u')
      → Returned v info w u'
  release_vf_custom-setup_vf conf nf if_name cid pod_net_ns info intf request pfs netns netns' total
        c s w x y u w' x' y' u' netdev counted chose one ne set devices current space opened read
        back released =
      after_Moved conf nf intf cid pod_net_ns info pfs netns netns' w u w' x' y' u'
        (setup_vf-Moved h v law conf if_name intf.name cid netns request total c info w x y u s
          netdev counted chose one ne set)
        devices current space opened read back released
