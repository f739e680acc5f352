-- ===== src/Tests/Restoring.antt =====
-- The theorems on the loops of ADD and DEL in the view of the devices, at concrete inputs.
use mathlib.Core.List.{Permᴰ}
use rit_k8s_rdma_sriov_cni.Base.{
  String, List, none, [], ◌∷◌, ◌≡◌, ◌≢◌, refl, sym, ap, ◌∙◌, arith, eq_iff,
}
use rit_k8s_rdma_sriov_cni.Base.{true}
use rit_k8s_rdma_sriov_cni.Tests.Mover.{where_is, called}
use rit_k8s_rdma_sriov_cni.Go.{ok, Outcome, Error}
use rit_k8s_rdma_sriov_cni.Go.Strconv.{itoa}
use rit_k8s_rdma_sriov_cni.Go.FilePath.{join_path}
use rit_k8s_rdma_sriov_cni.Device.{
  get_sriov_numfs, get_pci_address, set_vf_bandwidth_limits, rename_link, set_up_link,
}
use rit_k8s_rdma_sriov_cni.Scratch.{save_net_conf, save_scratch_net_conf}
use rit_k8s_rdma_sriov_cni.Setup.{
  choose_vf, setup_vf, scan_vfs, vf_round, after_lstat, look_at, take_vf, follow, check_choice,
  set_vlans, bind_netdev, sort_infos, move_links, name_links, rename_links,
}
use rit_k8s_rdma_sriov_cni.Add.Interfaces.{
  Progress, add_interfaces, add_interface, element, after_setup, address_interface, after_ipam,
  configure, after_configure, collect,
}
use rit_k8s_rdma_sriov_cni.Del.{is_pod_interface, release_interfaces}
use rit_k8s_rdma_sriov_cni.Del.Filtering.{pod_interfaces}
use rit_k8s_rdma_sriov_cni.Network.Taking.{Settles, add_interfaces-Populates}
use rit_k8s_rdma_sriov_cni.Network.Taken.{Populates}
use rit_k8s_rdma_sriov_cni.Network.Attending.{Attends}
use rit_k8s_rdma_sriov_cni.Network.Serving.{Serves, cmd_add-Serves}
use rit_k8s_rdma_sriov_cni.Conf.{load_conf, checked, with_defaults, is_empty_dpdk}
use rit_k8s_rdma_sriov_cni.Mutex.{
  mutex_name, acquire_shm_mutex, attempts, after_attempt, release_shm_mutex,
}
use rit_k8s_rdma_sriov_cni.Pod.{or_fatal, get_pod_requirements, pod_of_args}
use rit_k8s_rdma_sriov_cni.Host.{Ns}
use rit_k8s_rdma_sriov_cni.Add.{
  add_placed, add_pod, after_interfaces, or_unplaced, add_locked, cmd_add, set_ifname,
}
use rit_k8s_rdma_sriov_cni.Network.Emptying.{Frees, all_freed, frees}
use rit_k8s_rdma_sriov_cni.Network.Restoring.{Restores, release_interfaces-add_interfaces}
use rit_k8s_rdma_sriov_cni.Tests.Machine.{World, in_goroutine, or_missing, find, conf, request, pf}
use rit_k8s_rdma_sriov_cni.Tests.Commands.{args, one_added}
use rit_k8s_rdma_sriov_cni.Tests.Removal.{eth0}
use rit_k8s_rdma_sriov_cni.Tests.Mover.{
  space, shown, stored, looked_up, named, moved, inside, mover, view,
}
use rit_k8s_rdma_sriov_cni.Tests.Obeying.{mover-Obeys}
use rit_k8s_rdma_sriov_cni.Tests.Moving.{before, bound, given_back, reads, releases}

not_eth0 : ◌≢◌ {A = String} "enp1s0f2" "eth0"
not_eth0 e = ground (arith, eq_iff "enp1s0f2" "eth0")

one_name :
    (info : String) (infos : List String) (w u : World)
    → ◌≡◌ {A = Outcome Error (List String) × World} (ok ("enp1s0f2" ∷ []), w) (ok (info ∷ infos), u)
    → (◌≡◌ {A = String} "enp1s0f2" info) × ([] ≡ infos)
one_name info infos w u e = (cc (ap (λ r. r.0) e), cc (ap (λ r. r.0) e))

pub mover-Settles : Settles mover view
mover-Settles = record {
  one_device = λ pf_name info vf infos w u e.
      let (first, rest) = one_name info infos w u e in (sym rest, λ f. not_eth0 (first ∙ f));
  answering = λ ipam_type stdin. record { same = λ w. (refl, refl) };
  configuring = λ if_name r. record { same = λ w. (refl, refl) };
}

abbrev start : Progress
start = record { conf = conf; deferred = []; final = none }

adds :
    add_interfaces mover args 1 (request ∷ []) (pf ∷ []) (0 ∷ []) 0 start before
    ≡ (ok one_added, bound)
unfolding add_interfaces add_interface element after_setup address_interface after_ipam configure
    after_configure collect setup_vf get_sriov_numfs choose_vf scan_vfs vf_round after_lstat look_at
    take_vf follow get_pci_address set_vf_bandwidth_limits check_choice set_vlans bind_netdev
    sort_infos move_links name_links rename_links rename_link set_up_link save_net_conf
    save_scratch_net_conf find or_missing in_goroutine looked_up named moved inside shown stored
    space join_path itoa
adds = refl

apart : view.space 1 ≢ view.current before
unfolding space
apart e = omega (arith, e)

add_interfaces-Populates_example : Populates mover view 1 (pf ∷ []) (0 ∷ []) 0 before bound
add_interfaces-Populates_example =
    add_interfaces-Populates mover view mover-Obeys mover-Settles args 1 (request ∷ []) (pf ∷ [])
      (0 ∷ []) 0 start one_added before bound apart adds

freed : Frees mover view args (pf ∷ []) (view.space 1) conf (eth0 ∷ []) bound given_back
freed =
    frees
      (record {
        netns = 1;
        saved = conf;
        opened = bound;
        loaded = record bound { files = before.files };
        opens = refl;
        in_pod = refl;
        loads = reads;
        netdev = refl;
        releases = releases;
        back = refl;
      })
      all_freed

names : Permᴰ {A = String} ("eth0" ∷ []) ("eth0" ∷ [])
names = Permᴰ.cons refl Permᴰ.nil

release_interfaces-add_interfaces_example :
    (release_interfaces mover conf args (pf ∷ []) (eth0 ∷ []) bound ≡ (ok tt, given_back))
    × Restores view before given_back
unfolding pod_interfaces is_pod_interface itoa
release_interfaces-add_interfaces_example =
    release_interfaces-add_interfaces mover view mover-Obeys mover-Settles args 1 (request ∷ [])
      (pf ∷ []) (0 ∷ []) start one_added (pf ∷ []) conf (eth0 ∷ []) before bound bound given_back
      apart adds (refl, refl) names freed

pub mover-Attends : Attends mover view
unfolding where_is called
mover-Attends = record {
  configuring = λ url path. record { same = λ w. (refl, refl) };
  connecting = λ config. record { same = λ w. (refl, refl) };
  annotating = λ client ns name key. record { same = λ w. (refl, refl) };
  querying = λ address port timeout. record { same = λ w. (refl, refl) };
  setting_env = λ name value. record { same = λ w. (refl, refl) };
  printing = λ result. record { same = λ w. (refl, refl) };
  unlinking = λ file. record { same = λ w. (refl, refl) };
  closing_file = λ file. record { same = λ w. (refl, refl) };
}

abbrev held : World
held = record before { locked = true }

acquires : acquire_shm_mutex mover.shm before ≡ (ok mutex_name, held)
unfolding acquire_shm_mutex attempts after_attempt
acquires = refl

serves : cmd_add mover args before ≡ (ok tt, bound)
unfolding cmd_add add_locked add_placed add_pod after_interfaces or_unplaced set_ifname or_fatal
    get_pod_requirements pod_of_args load_conf checked with_defaults is_empty_dpdk acquire_shm_mutex
    attempts after_attempt release_shm_mutex add_interfaces add_interface element after_setup
    address_interface after_ipam configure after_configure collect setup_vf get_sriov_numfs
    choose_vf scan_vfs vf_round after_lstat look_at take_vf follow get_pci_address
    set_vf_bandwidth_limits check_choice set_vlans bind_netdev sort_infos move_links name_links
    rename_links rename_link set_up_link save_net_conf save_scratch_net_conf find or_missing
    in_goroutine looked_up named moved inside shown stored space join_path itoa
serves = refl

in_other :
    (ns : Ns) (y z : World)
    → mover.get_ns args.netns y ≡ (ok ns, z)
    → view.space ns ≢ view.current held
in_other ns y z e f = let one : 1 ≡ ns = cc (ap (λ r. r.0) e) in apart (ap space one ∙ f)

cmd_add-Serves_example : Serves mover view args held bound
cmd_add-Serves_example =
    cmd_add-Serves mover view mover-Obeys mover-Attends mover-Settles args mutex_name before held
      bound acquires in_other serves
