-- ===== src/Add.antt =====
-- The ADD command, sriov/sriov.go: `cmdAdd`.
pub mod Interfaces
pub mod Rollback
pub mod Modes
pub mod Leaks
pub mod Locking
pub mod Listed
pub mod Success
use rit_k8s_rdma_sriov_cni.Base.{
  ℕ, String, ◌<>◌, Bool, Option, none, some, List, [], ◌∷◌, ◌=?◌, if◌then◌else◌,
}
use rit_k8s_rdma_sriov_cni.Go.{
  Error, wrapf, Outcome, ok, err, exit, panic, Run, Tried, success, failure, pure, fail, fatal,
  of_tried, ◌>>=◌, ◌>>◌, ◌orelse◌, attempt, ignore, deferring,
}
use rit_k8s_rdma_sriov_cni.Conf.{NetConf, load_conf}
use rit_k8s_rdma_sriov_cni.Host.{Host, Ns, InterfaceRequest, PfInfo}
use rit_k8s_rdma_sriov_cni.Cni.{CurrentResult}
use rit_k8s_rdma_sriov_cni.Mutex.{acquire_shm_mutex, release_shm_mutex}
use rit_k8s_rdma_sriov_cni.Pod.{PodName, pod_of_args, or_fatal, get_pod_requirements}
use Interfaces.{CmdArgs, Progress, Ending, add_interfaces, run_deferred_calls, empty_dns}

-- "if no interfaces were needed"
unfoldable pub final_or_empty : Option CurrentResult → CurrentResult
final_or_empty (some r) = r
final_or_empty none = record {
  cni_version = "0.4.0";
  interfaces = [];
  ips = [];
  routes = [];
  dns = empty_dns;
}

module _ {W : Type 0} (h : Host W) (args : CmdArgs) where
  -- The loop, the printed result, and the calls that the loop has deferred. On success `err` is nil
  -- when they run; on a panic it is nil too, since no assignment has failed before.
  unfoldable pub after_interfaces : Ns → Outcome Ending Progress → Run W Error Unit
  after_interfaces netns (ok p) w = h.print_result (final_or_empty p.final) w
  after_interfaces netns (err e) w =
      (run_deferred_calls h args netns e.progress.conf e.err_var e.progress.deferred
          >> fail e.returned)
        w
  after_interfaces netns exit w = (exit, w)
  after_interfaces netns panic w = (panic, w)

  unfoldable pub add_pod :
      NetConf → Ns → List ℕ → List InterfaceRequest → List PfInfo → Run W Error Unit
  add_pod conf netns placements requests pfs w =
      let (r, w') =
        add_interfaces h args netns requests pfs placements 0
          (record { conf = conf; deferred = []; final = none }) w in
      after_interfaces netns r w'

  unfoldable pub set_ifname : NetConf → Run W Error Unit
  set_ifname n = if n.if0name =? "" then pure tt else ignore (h.setenv "CNI_IFNAME" n.if0name)

  -- With the pod placed on the PFs
  unfoldable pub add_placed : List ℕ → List InterfaceRequest → List PfInfo → Run W Error Unit
  unfolding set_ifname
  add_placed placements requests pfs = do
    n ←
        of_tried (load_conf h.unmarshal_net_conf args.stdin_data)
        orelse wrapf "failed to load netconf: %v" []
    netns ← h.get_ns args.netns orelse wrapf "failed to open netns %q: %v" []
    deferring (h.close_ns netns) (do
      old_ifname ← (λ w. (ok (h.getenv "CNI_IFNAME" w), w))
      deferring (h.setenv "CNI_IFNAME" old_ifname)
          (do set_ifname n; add_pod n netns placements requests pfs))

  unfoldable pub or_unplaced :
      List ℕ × Bool → List InterfaceRequest → List PfInfo → Run W Error Unit
  or_unplaced (placements, fits) requests pfs =
      if fits then add_placed placements requests pfs else fatal

  -- With the mutex held
  unfoldable pub add_locked : Run W Error Unit
  unfolding or_unplaced
  add_locked = do
    let pod = pod_of_args args.cni_args
    requests ← get_pod_requirements h.cluster pod.name pod.ns
    pfs ← or_fatal h.cluster (h.query_node "127.0.0.1" "54005" 1500)
    or_unplaced (h.place_pod requests pfs) requests pfs

  unfoldable pub cmd_add : Run W Error Unit
  cmd_add = do
    mutex_file ← or_fatal h.cluster (acquire_shm_mutex h.shm)
    deferring (release_shm_mutex h.shm mutex_file) add_locked
