-- ===== src/Tests/Commands.antt =====
-- The theorems on the commands and the mutex, at concrete inputs.
use rit_k8s_rdma_sriov_cni.Base.{arith, ◌++◌, ◌≡◌, refl, true, none, some, List, [], ◌∷◌, ◌⊎◌, ◌↔◌}
use rit_k8s_rdma_sriov_cni.Go.{Error, host, errorf, ok, err, exit, ignore, success}
use rit_k8s_rdma_sriov_cni.Go.Strconv.{pos, itoa}
use rit_k8s_rdma_sriov_cni.Conf.{NetConf}
use rit_k8s_rdma_sriov_cni.Device.{
  get_sriov_numfs, get_pci_address, set_vf_bandwidth_limits, rename_link, set_up_link,
}
use rit_k8s_rdma_sriov_cni.Scratch.{save_net_conf, save_scratch_net_conf}
use rit_k8s_rdma_sriov_cni.Go.FilePath.{join_path}
use rit_k8s_rdma_sriov_cni.Setup.{
  choose_vf, setup_vf, scan_vfs, vf_round, after_lstat, look_at, take_vf, follow, check_choice,
  set_vlans, bind_netdev, sort_infos, move_links, name_links, rename_links,
}
use rit_k8s_rdma_sriov_cni.Mutex.{
  mutex_name, max_attempts, attempts, after_attempt, acquire_shm_mutex,
}
use rit_k8s_rdma_sriov_cni.Mutex.Waiting.{Creates, TakesOver, acquire_shm_mutex-how}
use rit_k8s_rdma_sriov_cni.Pod.{get_pod_requirements, pod_of_args}
use rit_k8s_rdma_sriov_cni.Release.{release_vf}
use rit_k8s_rdma_sriov_cni.Add.{add_pod, cmd_add}
use rit_k8s_rdma_sriov_cni.Add.Interfaces.{
  CmdArgs, Progress, Deferred, rollback, release_ipam, run_deferred_calls, look_up,
}
use rit_k8s_rdma_sriov_cni.Add.Rollback.{rollback_last}
use rit_k8s_rdma_sriov_cni.Add.Modes.{add_pod-fails}
use rit_k8s_rdma_sriov_cni.Add.Leaks.{add_rest, l2_vf_kept, missing_ipv4_kept}
use rit_k8s_rdma_sriov_cni.Add.Locking.{ClusterKeeps, cmd_add-rejected}
use rit_k8s_rdma_sriov_cni.Add.Listed.{Converts, listed, names_from, add_interfaces-listed}
use rit_k8s_rdma_sriov_cni.Add.Interfaces.{
  add_interfaces, add_interface, element, after_setup, address_interface, after_ipam, configure,
  after_configure, collect, empty_dns,
}
use rit_k8s_rdma_sriov_cni.Del.Names.{AllReleased, add_interfaces-AllReleased}
use rit_k8s_rdma_sriov_cni.Tests.Machine.{
  World, find, or_missing, renamed, in_goroutine, shm, machine, cluster, conf, conf_l2, request, pf,
  settings, world, Settings,
}

abbrev pub args : CmdArgs
args = record {
  container_id = "c1";
  netns = "/var/run/netns/p";
  cni_args = "K8S_POD_NAME=p";
  stdin_data = "{}";
}

abbrev pub locked : World
locked = record world { locked = true }

acquire_shm_mutex-how_example : (acquire_shm_mutex shm world ≡ (ok mutex_name, locked)) ↔ (
    Creates shm max_attempts world mutex_name locked
    ⊎ TakesOver shm max_attempts world mutex_name locked)
acquire_shm_mutex-how_example = acquire_shm_mutex-how shm world locked mutex_name

-- The device in the pod
abbrev pub in_pod : World
in_pod = record world { devices = ("enp1s0", 5) ∷ ("eth0", 9) ∷ [] }

looks_up : (look_up (machine settings) args 1 "eth0" in_pod).0 ≡ ok (success tt)
unfolding look_up in_goroutine or_missing find
looks_up = refl

abbrev deferred : List Deferred
deferred = rollback "eth0" "enp1s0" (some 3) ∷ release_ipam ∷ []

rollback_last_example :
    run_deferred_calls (machine settings) args 1 conf (some (host "x")) deferred in_pod
    ≡ ignore {F = Error} (release_vf (machine settings) conf "eth0" "c1" 1 "enp1s0" (some 3)) in_pod
unfolding look_up in_goroutine or_missing find
rollback_last_example =
    rollback_last (machine settings) args 1 conf (host "x") "eth0" "enp1s0" (some 3)
      (release_ipam ∷ []) in_pod looks_up

add_pod-fails_example : ¬ (
    (add_pod (machine settings) args conf_l2 1 (0 ∷ []) (request ∷ []) (pf ∷ []) world).0 ≡ ok tt)
add_pod-fails_example =
    add_pod-fails (machine settings) args 1 conf_l2 0 [] (request ∷ []) (pf ∷ []) world refl

-- The configuration, the world and the progress of an interface
abbrev bound : NetConf → NetConf
bound c = record c {
  dpdk_conf = record c.dpdk_conf { pci_addr = "0000:01:00.2"; ifname = "eth0"; vfid = pos 0 };
}

abbrev pub after_binding : World
after_binding = record in_pod { files = ("/var/lib/cni/sriov/c1-eth0", "{}") ∷ world.files }

abbrev start : NetConf → Progress
start c = record { conf = c; deferred = []; final = none }

takes_l2 :
    setup_vf (machine settings) conf_l2 "enp1s0" "eth0" "c1" 1 request world
    ≡ (ok (record { vf_idx = 0; conf = bound conf_l2 }), after_binding)
unfolding setup_vf get_sriov_numfs choose_vf scan_vfs vf_round after_lstat look_at take_vf follow
    get_pci_address set_vf_bandwidth_limits check_choice set_vlans bind_netdev sort_infos move_links
    name_links rename_links rename_link set_up_link save_net_conf save_scratch_net_conf find
    or_missing renamed in_goroutine join_path
takes_l2 = refl

takes :
    setup_vf (machine settings) conf "enp1s0" "eth0" "c1" 1 request world
    ≡ (ok (record { vf_idx = 0; conf = bound conf }), after_binding)
unfolding setup_vf get_sriov_numfs choose_vf scan_vfs vf_round after_lstat look_at take_vf follow
    get_pci_address set_vf_bandwidth_limits check_choice set_vlans bind_netdev sort_infos move_links
    name_links rename_links rename_link set_up_link save_net_conf save_scratch_net_conf find
    or_missing renamed in_goroutine join_path
takes = refl

l2_vf_kept_example :
    add_rest (machine settings) args 1 (request ∷ []) (pf ∷ []) (0 ∷ []) 0 (start conf_l2) world
    ≡ (err (errorf "error setting dpdk mode: %s" ("%!s(<nil>)" ∷ [])), after_binding)
unfolding itoa
l2_vf_kept_example =
    l2_vf_kept (machine settings) args 1 (request ∷ []) (pf ∷ []) 0 0 (start conf_l2) world pf
      request (record { vf_idx = 0; conf = bound conf_l2 }) after_binding refl refl takes_l2 []
      after_binding refl refl

missing_ipv4_kept_example :
    add_rest (machine settings) args 1 (request ∷ []) (pf ∷ []) (0 ∷ []) 0 (start conf) world
    ≡ (err (errorf "IPAM plugin returned missing IPv4 config" []), after_binding)
unfolding itoa
missing_ipv4_kept_example =
    missing_ipv4_kept (machine settings) args 1 (request ∷ []) (pf ∷ []) 0 0 (start conf) world pf
      request (record { vf_idx = 0; conf = bound conf }) after_binding refl refl takes []
      settings.answer after_binding refl refl refl

-- Two interfaces for one PF
abbrev crowded : Settings
crowded = record settings { requests = request ∷ request ∷ [] }

abbrev IsLocked : World → Type 0
IsLocked w = w.locked ≡ true

crowded-ClusterKeeps : ClusterKeeps (cluster crowded) IsLocked
crowded-ClusterKeeps = record {
  config = λ url path w p. p;
  client = λ c w p. p;
  annotation = λ c ns name key w p. p;
  query = λ address port timeout w p. p;
}

pub acquires : acquire_shm_mutex shm world ≡ (ok mutex_name, locked)
unfolding acquire_shm_mutex attempts after_attempt
acquires = refl

requires :
    get_pod_requirements (cluster crowded) "p" "" locked ≡ (ok (request ∷ request ∷ []), locked)
unfolding get_pod_requirements
requires = refl

cmd_add-rejected_example :
    ((cmd_add (machine crowded) args world).0 ≡ exit)
    × IsLocked (cmd_add (machine crowded) args world).1
unfolding pod_of_args
cmd_add-rejected_example =
    cmd_add-rejected (machine crowded) args IsLocked crowded-ClusterKeeps mutex_name
      (request ∷ request ∷ []) world locked locked acquires refl requires refl

-- The IPAM plugin answers with an address.
abbrev pub addressed : Settings
addressed = record settings {
  answer = record {
    ip4 = some (record {
      ip = record { ip = some (10 ∷ 0 ∷ 0 ∷ 7 ∷ []); mask = 255 ∷ 255 ∷ 255 ∷ 0 ∷ [] };
      gateway = none;
      routes = [];
    });
    ip6 = none;
    dns = empty_dns;
  };
}

machine-Converts : Converts (machine addressed).new_result_from_result
machine-Converts r = (_, refl, refl)

abbrev pub one_added : Progress
one_added = record {
  conf = bound conf;
  deferred = release_ipam ∷ rollback "eth0" "enp1s0" (some 0) ∷ [];
  final = some (record {
    cni_version = "0.4.0";
    interfaces = record { name = "eth0" } ∷ [];
    ips = [];
    routes = [];
    dns = empty_dns;
  });
}

adds :
    (add_interfaces
      (machine addressed)
      args
      1
      (request ∷ [])
      (pf ∷ [])
      (0 ∷ [])
      0
      (start conf)
      world).0
    ≡ ok one_added
unfolding add_interfaces add_interface element after_setup address_interface after_ipam configure
    after_configure collect setup_vf get_sriov_numfs choose_vf scan_vfs vf_round after_lstat look_at
    take_vf follow get_pci_address set_vf_bandwidth_limits check_choice set_vlans bind_netdev
    sort_infos move_links name_links rename_links rename_link set_up_link save_net_conf
    save_scratch_net_conf find or_missing renamed in_goroutine join_path itoa
adds = refl

add_interfaces-listed_example :
    listed one_added.final ≡ listed (start conf).final ++ names_from 0 (0 ∷ [])
add_interfaces-listed_example =
    add_interfaces-listed (machine addressed) args 1 machine-Converts (request ∷ []) (pf ∷ [])
      (0 ∷ []) 0 (start conf) world one_added adds

add_interfaces-AllReleased_example : AllReleased (record { name = "eth0" } ∷ [])
add_interfaces-AllReleased_example =
    add_interfaces-AllReleased (machine addressed) args 1 conf (request ∷ []) (pf ∷ []) (0 ∷ [])
      world one_added machine-Converts (omega arith) adds
