-- ===== src/Del.antt =====
-- The DEL command, sriov/sriov.go: `getNamespaceInterfaces`, `cmdDel`.
pub mod Errors
pub mod Failing
pub mod Filtering
pub mod Releasing
pub mod Names
pub mod Unlocking
pub mod Tracing
pub mod Namespace
use Prim.Native.String.{len, slice}
use rit_k8s_rdma_sriov_cni.Base.{String, Bool, none, some, List, [], ◌∷◌, ◌=?◌, if◌then◌else◌}
use text.Mathlib.Text.{starts_with}
use rit_k8s_rdma_sriov_cni.Go.{
  Error, wrapf, Run, Tried, success, failure, pure, ◌>>=◌, ◌>>◌, ◌orelse◌, attempt, deferring,
  of_tried,
}
use rit_k8s_rdma_sriov_cni.Go.Strconv.{parse_int}
use rit_k8s_rdma_sriov_cni.Conf.{NetConf, load_conf}
use rit_k8s_rdma_sriov_cni.Host.{Host, Ns, NetInterface, PfInfo}
use rit_k8s_rdma_sriov_cni.Mutex.{acquire_shm_mutex, release_shm_mutex}
use rit_k8s_rdma_sriov_cni.Pod.{or_fatal}
use rit_k8s_rdma_sriov_cni.ReleaseCustom.{ReleaseFailure, release_vf_custom}
use rit_k8s_rdma_sriov_cni.Add.Interfaces.{CmdArgs}

-- `eth` and a number
unfoldable pub is_pod_interface : String → Bool
unfolding parse_int
is_pod_interface name =
    if starts_with name "eth"
    then elim (parse_int (slice name 3 (len name))) [ none ↦ Bool.false | some _ ↦ Bool.true ]
    else Bool.false

or_no_pfs : Tried Error (List PfInfo) → List PfInfo
or_no_pfs (success pfs) = pfs
or_no_pfs (failure e) = []

module _ {W : Type 0} (h : Host W) where
  -- The interfaces of the namespace `newns`, and back
  unfoldable pub list_interfaces : Ns → Ns → Run W Error (List NetInterface)
  list_interfaces origns newns = do
    h.set_netns newns orelse wrapf "error setting to ns namespace: %s" []
    ifaces ← h.interfaces orelse wrapf "error getting network interfaces: %s" []
    h.set_netns origns orelse wrapf "error setting back to origin namespace: %s" []
    pure ifaces

  unfoldable pub visit_namespace : String → Ns → Run W Error (List NetInterface)
  visit_namespace netns_name origns = do
    newns ← h.get_netns_from_path netns_name orelse wrapf "error getting netns namespace: %s" []
    deferring (h.close_netns newns) (list_interfaces origns newns)

  unfoldable pub get_namespace_interfaces : String → Run W Error (List NetInterface)
  get_namespace_interfaces netns_name = do
    origns ← h.get_netns orelse wrapf "error getting origin namespace: %s" []
    deferring (h.close_netns origns) (visit_namespace netns_name origns)

  -- An error is logged, and the loop goes on with the configuration as it then is.
  unfoldable pub after_release : NetConf → Tried ReleaseFailure Bool → NetConf
  after_release n (success shared) = record n { shared_vf = shared }
  after_release n (failure f) = record n { shared_vf = f.shared }

  unfoldable pub release_interface :
      NetConf → CmdArgs → List PfInfo → NetInterface → Run W Error NetConf
  unfolding after_release
  release_interface n args pfs intf =
      if is_pod_interface intf.name
      then (do
        released ← attempt (release_vf_custom h n intf args.container_id args.netns pfs)
        pure (after_release n released))
      else pure n

  unfoldable pub release_interfaces :
      NetConf → CmdArgs → List PfInfo → List NetInterface → Run W Error Unit
  release_interfaces n args pfs [] = pure tt
  release_interfaces n args pfs (intf ∷ rest) = do
    n' ← release_interface n args pfs intf
    release_interfaces n' args pfs rest

  unfoldable pub release_pod : NetConf → CmdArgs → Run W Error Unit
  unfolding or_no_pfs
  release_pod n args = if args.netns =? "" then pure tt else do
    interfaces ← get_namespace_interfaces args.netns orelse wrapf "Error getting iterfaces: %s" []
    pfs ← attempt (h.query_node "127.0.0.1" "54005" 1500)
    release_interfaces n args (or_no_pfs pfs) interfaces

  unfoldable pub del_locked : NetConf → CmdArgs → Run W Error Unit
  del_locked n args = do
    if n.ipam_type =? "" then pure tt else h.exec_del n.ipam_type args.stdin_data
    release_pod n args

  unfoldable pub cmd_del : CmdArgs → Run W Error Unit
  cmd_del args = do
    n ← of_tried (load_conf h.unmarshal_net_conf args.stdin_data)
    mutex_file ← or_fatal h.cluster (acquire_shm_mutex h.shm)
    deferring (release_shm_mutex h.shm mutex_file) (del_locked n args)
