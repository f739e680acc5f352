-- ===== src/Release.antt =====
-- Giving a VF back, sriov/sriov.go: `releaseVF` for the rollback of an ADD, `releaseVFCustom` for a
-- DEL.
use rit_k8s_rdma_sriov_cni.Base.{
  ℕ, zero, suc, ◌+◌, ◌-◌, String, ◌<>◌, Bool, true, false, Option, none, some, [], ◌∷◌, ◌==◌,
  if◌then◌else◌,
}
use rit_k8s_rdma_sriov_cni.Go.{
  Error, wrapf, Run, success, failure, pure, ◌>>=◌, ◌>>◌, ◌orelse◌, attempt,
}
use rit_k8s_rdma_sriov_cni.Go.Strconv.{pos, itoa}
use rit_k8s_rdma_sriov_cni.Conf.{NetConf, max_shared_vf, is_zero}
use rit_k8s_rdma_sriov_cni.Host.{Host, Ns}
use rit_k8s_rdma_sriov_cni.Device.{
  set_vf_bandwidth_limits, enable_dpdk_mode, get_shared_pf, reset_vf_vlan, rename_link,
}
use rit_k8s_rdma_sriov_cni.Scratch.{get_net_conf}

module _ {W : Type 0} (h : Host W) where
  -- The VF goes back to its kernel driver and loses its VLAN.
  unfoldable pub release_dpdk : NetConf → String → Run W Error Unit
  release_dpdk nf pf_name = do
    enable_dpdk_mode h.processes nf.dpdk_conf nf.dpdk_conf.ifname false
        orelse wrapf "DPDK: failed to bind %s to kernel space: %s" (nf.dpdk_conf.ifname ∷ [])
    pf_link ←
        h.link_by_name pf_name orelse wrapf "DPDK: master device %s not found: %v" (pf_name ∷ [])
    h.link_set_vf_vlan pf_link nf.dpdk_conf.vfid (pos 0)
        orelse wrapf "DPDK: failed to reset vlan tag for vf %d: %v" []

  -- `conf.Sharedvf`, set if the pod has a second interface
  unfoldable pub sees_shared : NetConf → String → Run W Error Bool
  sees_shared conf pod_if_name =
      if conf.l2_mode
      then (do
        found ← attempt (h.link_by_name (pod_if_name <> "d1"))
        pure (elim found [ success _ ↦ true | failure _ ↦ conf.shared_vf ]))
      else pure conf.shared_vf

  -- The part of a round from "get VF device" to "reset vlan", which both functions have. In the
  -- pod's namespace the device is set down and renamed, and it is moved to the namespace `initns`.
  unfoldable pub detach : NetConf → String → String → Ns → Run W Error Unit
  detach conf if_name pf_name initns = do
    vf_dev ← h.link_by_name if_name orelse wrapf "failed to lookup vf device %q: %v" (if_name ∷ [])
    let dev_name = "dev" <> itoa vf_dev.index
    h.link_set_down vf_dev orelse wrapf "failed to down vf device %q: %v" (if_name ∷ [])
    rename_link h.netlink if_name dev_name
        orelse wrapf "failed to rename vf device %q to %q: %v" (if_name ∷ dev_name ∷ [])
    h.link_set_ns_fd vf_dev initns
        orelse wrapf "failed to move vf device %q to init netns: %v" (if_name ∷ [])
    if is_zero conf.vlan
        then pure tt
        else h.do_in_ns initns (reset_vf_vlan h.netlink h.files pf_name dev_name)
          orelse wrapf "failed to reset vlan: %v" []

  -- `ifName` and `pfName` of round `i`
  unfoldable pub round_names : String → String → ℕ → Run W Error (String × String)
  round_names pod_if_name pf_name i =
      if i == max_shared_vf
      then (do
        shared_pf ←
            get_shared_pf h.files pf_name orelse wrapf "Failed to look up shared PF device: %v:" []
        pure (pod_if_name <> "d" <> itoa (i - 1), shared_pf))
      else pure (pod_if_name, pf_name)

  -- `*vfNumber` is there unless `setupVF` returned nil.
  unfoldable pub reset_rates : Ns → String → Option ℕ → Run W Error Unit
  reset_rates initns pf_name none = pure tt
  reset_rates initns pf_name (some vf) =
      h.do_in_ns initns (
        set_vf_bandwidth_limits h.processes pf_name (itoa vf) "0" "0"
        orelse wrapf "Failed resetting bandwidth limits: %s" [])
      orelse wrapf "failed to reset min/max speed: %v" []

  module _ (conf : NetConf) (pod_if_name : String) (initns : Ns) (shared : Bool) where
    -- The loop of `releaseVF` from round `i` on
    unfoldable pub release_rounds : String → Option ℕ → ℕ → ℕ → Run W Error Unit
    unfolding round_names reset_rates
    release_rounds pf_name vf_number zero i = pure tt
    release_rounds pf_name vf_number (suc left) i = do
      (if_name, pf) ← round_names pod_if_name pf_name i
      detach conf if_name pf initns
      reset_rates initns pf vf_number
      let later = release_rounds pf_name vf_number left (i + 1)
      if shared then later else pure tt

  unfoldable pub release_netdev : NetConf → String → Ns → String → Option ℕ → Run W Error Unit
  release_netdev conf pod_if_name netns pf_name vf_number = do
    initns ← h.get_current_ns orelse wrapf "failed to get init netns: %v" []
    h.set_ns netns orelse wrapf "failed to enter netns %q: %v" []
    shared ← sees_shared conf pod_if_name
    release_rounds conf pod_if_name initns shared pf_name vf_number max_shared_vf 1

  unfoldable pub release_vf : NetConf → String → String → Ns → String → Option ℕ → Run W Error Unit
  unfolding release_netdev
  release_vf conf pod_if_name cid netns pf_name vf_number = do
    nf ← get_net_conf h.files h.json cid pod_if_name conf.cni_dir
    if nf.dpdk_mode
        then release_dpdk nf pf_name
        else release_netdev conf pod_if_name netns pf_name vf_number
