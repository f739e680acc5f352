-- ===== src/ReleaseCustom.antt =====
-- Giving the VFs of a pod back on DEL, sriov/sriov.go: `releaseVFCustom`. The VF is looked up by the
-- hardware address of the pod's interface.
pub mod Found
use rit_k8s_rdma_sriov_cni.Base.{
  ℕ, zero, suc, ◌+◌, ◌-◌, String, ◌<>◌, Bool, Option, none, some, List, [], ◌∷◌, ◌==◌,
  if◌then◌else◌,
}
use rit_k8s_rdma_sriov_cni.Go.{Error, wrapf, Run, pure, panics, ◌>>=◌, ◌>>◌, ◌orelse◌, deferring}
use rit_k8s_rdma_sriov_cni.Go.Strconv.{itoa}
use rit_k8s_rdma_sriov_cni.Conf.{NetConf, max_shared_vf}
use rit_k8s_rdma_sriov_cni.Host.{Host, Ns, NetInterface, PfInfo, VfInfo}
use rit_k8s_rdma_sriov_cni.Device.{set_vf_bandwidth_limits, get_shared_pf}
use rit_k8s_rdma_sriov_cni.Scratch.{get_net_conf}
use rit_k8s_rdma_sriov_cni.Release.{release_dpdk, sees_shared, detach}

-- An error, with `conf.Sharedvf` as it then is
pub record ReleaseFailure : Type 0 where
  pub shared : Bool
  pub cause : Error

abbrev pub with_flag : Bool → Error → ReleaseFailure
with_flag shared e = record { shared = shared; cause = e }

abbrev pub unreleased : Bool → String → Error → ReleaseFailure
unreleased shared format e = with_flag shared (wrapf format [] e)

module _ {W : Type 0} (h : Host W) where
  named : String → Option VfInfo → Option VfInfo × String → Option VfInfo × String
  named pf_name none later = later
  named pf_name (some vf) later = (some vf, pf_name)

  -- The loop over the PFs; the name stays empty if no VF is found.
  unfoldable pub find_vf_of : String → List PfInfo → Option VfInfo × String
  unfolding named
  find_vf_of mac [] = (none, "")
  find_vf_of mac (pf ∷ pfs) = named pf.name (h.find_associated_mac pf mac) (find_vf_of mac pfs)

  unfoldable pub round_names : String → String → ℕ → Run W Error (String × String)
  round_names pod_if_name pf_name i =
      if i == max_shared_vf
      then (do
        shared_pf ←
            get_shared_pf h.files pf_name orelse wrapf "failed to look up shared PF device: %v:" []
        pure (pod_if_name <> "d" <> itoa (i - 1), shared_pf))
      else pure (pod_if_name, pf_name)

  -- Runs in the first namespace. The number is read through a pointer, which may be nil.
  unfoldable pub reset_found : String → Option VfInfo → Run W Error Unit
  reset_found pf_name none = panics
  reset_found pf_name (some vf) =
      set_vf_bandwidth_limits h.processes pf_name (itoa vf.vf_number) "0" "0"
      orelse wrapf "Failed resetting bandwidth limits: %s" []

  module _ (conf : NetConf) (pod_if_name : String) (initns : Ns) (shared : Bool) where
    unfoldable pub custom_rounds : String → Option VfInfo → ℕ → ℕ → Run W Error Unit
    unfolding round_names reset_found
    custom_rounds pf_name found zero i = pure tt
    custom_rounds pf_name found (suc left) i = do
      (if_name, pf) ← round_names pod_if_name pf_name i
      detach h conf if_name pf initns
      h.do_in_ns initns (reset_found pf_name found)
          orelse wrapf "failed to reset min/max speed: %v" []
      let later = custom_rounds pf_name found left (i + 1)
      if shared then later else pure tt

  -- In the pod's namespace. `conf.Sharedvf`, which the caller's next call reads too, is the result,
  -- and stands beside an error.
  unfoldable pub release_links :
      NetConf → String → Ns → Option VfInfo × String → Run W ReleaseFailure Bool
  release_links conf pod_if_name initns (found, pf_name) = do
    shared ← sees_shared h conf pod_if_name orelse with_flag conf.shared_vf
    custom_rounds conf pod_if_name initns shared pf_name found max_shared_vf 1
        orelse with_flag shared
    pure shared

  unfoldable pub enter_pod :
      NetConf → String → Ns → Ns → Option VfInfo × String → Run W ReleaseFailure Bool
  enter_pod conf pod_if_name netns initns found = do
    h.set_ns netns orelse unreleased conf.shared_vf "failed to enter pod netns %q: %v"
    deferring (h.close_ns netns)
        (deferring (h.set_ns initns) (release_links conf pod_if_name initns found))

  -- Once the DPDK mode is ruled out
  unfoldable pub custom_netdev :
      NetConf → String → Ns → Option VfInfo × String → Run W ReleaseFailure Bool
  custom_netdev conf pod_if_name netns found = do
    initns ←
        h.get_current_ns orelse unreleased conf.shared_vf "failed to get init the current netns: %v"
    deferring (h.close_ns initns) (enter_pod conf pod_if_name netns initns found)

  unfoldable pub release_dpdk_mode : NetConf → NetConf → String → Run W ReleaseFailure Bool
  release_dpdk_mode conf nf pf_name = do
    release_dpdk h nf pf_name orelse with_flag conf.shared_vf
    pure conf.shared_vf

  -- With the pod's namespace open
  unfoldable pub release_by_mode :
      NetConf → NetInterface → String → Ns → List PfInfo → Run W ReleaseFailure Bool
  unfolding release_dpdk_mode
  release_by_mode conf pod_interface cid netns pfs = do
    nf ←
        get_net_conf h.files h.json cid pod_interface.name conf.cni_dir
        orelse with_flag conf.shared_vf
    let found = find_vf_of pod_interface.mac pfs
    if nf.dpdk_mode
        then release_dpdk_mode conf nf found.1
        else custom_netdev conf pod_interface.name netns found

  unfoldable pub release_vf_custom :
      NetConf → NetInterface → String → String → List PfInfo → Run W ReleaseFailure Bool
  release_vf_custom conf pod_interface cid pod_net_ns pfs = do
    netns ←
        h.get_ns pod_net_ns
        orelse unreleased conf.shared_vf "failed to open pod netnamespace %q: %v"
    deferring (h.close_ns netns) (release_by_mode conf pod_interface cid netns pfs)
