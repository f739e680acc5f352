-- ===== src/Tests/Adding.antt =====
-- The theorems on an ADD that succeeds, at concrete inputs.
use rit_k8s_rdma_sriov_cni.Base.{◌≡◌, refl, ◌↔◌, true, false, none, [], ◌∷◌}
use rit_k8s_rdma_sriov_cni.Go.{ok}
use rit_k8s_rdma_sriov_cni.Go.Strconv.{itoa}
use rit_k8s_rdma_sriov_cni.Go.FilePath.{join_path}
use rit_k8s_rdma_sriov_cni.Conf.{load_conf, checked, with_defaults, is_empty_dpdk}
use rit_k8s_rdma_sriov_cni.Device.{
  get_sriov_numfs, get_pci_address, set_vf_bandwidth_limits, rename_link, set_up_link,
}
use rit_k8s_rdma_sriov_cni.Scratch.{save_net_conf, save_scratch_net_conf}
use rit_k8s_rdma_sriov_cni.Setup.{
  choose_vf, setup_vf, scan_vfs, vf_round, after_lstat, look_at, take_vf, follow, check_choice,
  set_vlans, bind_netdev, sort_infos, move_links, name_links, rename_links,
}
use rit_k8s_rdma_sriov_cni.Mutex.{mutex_name, release_shm_mutex}
use rit_k8s_rdma_sriov_cni.Pod.{get_pod_requirements, pod_of_args}
use rit_k8s_rdma_sriov_cni.Add.{cmd_add, set_ifname}
use rit_k8s_rdma_sriov_cni.Add.Interfaces.{
  Progress, add_interfaces, add_interface, element, after_setup, address_interface, after_ipam,
  configure, after_configure, collect,
}
use rit_k8s_rdma_sriov_cni.Add.Success.{Adds}
use rit_k8s_rdma_sriov_cni.Add.Success.Enough.{add_interfaces-Adds_iff}
use rit_k8s_rdma_sriov_cni.Add.Success.Command.{TidiesUp}
use rit_k8s_rdma_sriov_cni.Add.Success.Exactly.{Adding, Succeeds, cmd_add-Succeeds_iff}
use rit_k8s_rdma_sriov_cni.Tests.Machine.{
  World, find, or_missing, renamed, in_goroutine, machine, conf, request, pf, world,
}
use rit_k8s_rdma_sriov_cni.Tests.Commands.{
  args, acquires, addressed, after_binding, locked, one_added,
}

abbrev start : Progress
start = record { conf = conf; deferred = []; final = none }

abbrev bound : World
bound = record after_binding { locked = true }

adds :
    add_interfaces (machine addressed) args 1 (request ∷ []) (pf ∷ []) (0 ∷ []) 0 start locked
    ≡ (ok one_added, bound)
unfolding add_interfaces add_interface element after_setup address_interface after_ipam configure
    after_configure collect setup_vf get_sriov_numfs choose_vf scan_vfs vf_round after_lstat look_at
    take_vf follow get_pci_address set_vf_bandwidth_limits check_choice set_vlans bind_netdev
    sort_infos move_links name_links rename_links rename_link set_up_link save_net_conf
    save_scratch_net_conf find or_missing renamed in_goroutine join_path itoa
adds = refl

add_interfaces-Adds_iff_example :
    (add_interfaces (machine addressed) args 1 (request ∷ []) (pf ∷ []) (0 ∷ []) 0 start locked
      ≡ (ok one_added, bound))
    ↔ Adds
        (machine addressed)
        args
        1
        (request ∷ [])
        (pf ∷ [])
        (0 ∷ [])
        0
        start
        locked
        one_added
        bound
add_interfaces-Adds_iff_example =
    add_interfaces-Adds_iff (machine addressed) args 1 (request ∷ []) (pf ∷ []) (0 ∷ []) 0 start
      one_added locked bound

machine-TidiesUp : TidiesUp (machine addressed)
unfolding release_shm_mutex
machine-TidiesUp = record {
  closing = λ ns w. (w, refl);
  resetting = λ name value w. (w, refl);
  releasing = λ file w. (record w { locked = false }, refl);
}

all_added : Adding (machine addressed) args (0 ∷ []) (request ∷ []) (pf ∷ []) locked
unfolding load_conf checked with_defaults is_empty_dpdk set_ifname
all_added = record {
  conf = conf;
  netns = 1;
  progress = one_added;
  opened = locked;
  named = locked;
  added = bound;
  printed = bound;
  loads = refl;
  opens = refl;
  names = refl;
  adds = add_interfaces-Adds_iff_example.0 adds;
  prints = refl;
}

all_succeed : Succeeds (machine addressed) args world
unfolding get_pod_requirements pod_of_args
all_succeed = record {
  file = mutex_name;
  requests = request ∷ [];
  pfs = pf ∷ [];
  placements = 0 ∷ [];
  held = locked;
  asked = locked;
  queried = locked;
  acquires = acquires;
  requires = refl;
  queries = refl;
  fits = refl;
  adding = all_added;
}

cmd_add-Succeeds_iff_example :
    ((z : World) × (cmd_add (machine addressed) args world ≡ (ok tt, z)))
    ↔ Succeeds (machine addressed) args world
cmd_add-Succeeds_iff_example = cmd_add-Succeeds_iff (machine addressed) args machine-TidiesUp world

-- So the command succeeds.
cmd_add_succeeds : (z : World) × (cmd_add (machine addressed) args world ≡ (ok tt, z))
cmd_add_succeeds =
    (cmd_add-Succeeds_iff (machine addressed) args machine-TidiesUp world).1 all_succeed
