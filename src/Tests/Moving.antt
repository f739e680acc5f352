-- ===== src/Tests/Moving.antt =====
-- The theorems on the view of the devices, at concrete inputs.
use rit_k8s_rdma_sriov_cni.Base.{some, false, [], ◌∷◌, ◌≡◌, refl, arith, eq_iff}
use rit_k8s_rdma_sriov_cni.Go.{ok, success, host}
use rit_k8s_rdma_sriov_cni.Go.Strconv.{pos, itoa}
use rit_k8s_rdma_sriov_cni.Go.FilePath.{join_path}
use rit_k8s_rdma_sriov_cni.Device.{
  get_sriov_numfs, get_pci_address, set_vf_bandwidth_limits, rename_link, set_up_link,
}
use rit_k8s_rdma_sriov_cni.Scratch.{save_net_conf, save_scratch_net_conf, get_net_conf}
use rit_k8s_rdma_sriov_cni.Setup.{
  rounds_of, choose_vf, setup_vf, scan_vfs, vf_round, after_lstat, look_at, take_vf, follow,
  check_choice, set_vlans, bind_netdev, sort_infos, move_links, name_links, rename_links,
}
use rit_k8s_rdma_sriov_cni.Release.{
  sees_shared, detach, round_names, reset_rates, release_rounds, release_netdev, release_vf,
}
use rit_k8s_rdma_sriov_cni.ReleaseCustom.{
  release_vf_custom, release_by_mode, custom_netdev, enter_pod, release_links, custom_rounds,
  find_vf_of,
}
use rit_k8s_rdma_sriov_cni.Network.{Left, Returned}
use rit_k8s_rdma_sriov_cni.Network.Undoing.{release_vf-Left}
use rit_k8s_rdma_sriov_cni.Network.Recovering.{run_deferred_calls-setup_vf}
use rit_k8s_rdma_sriov_cni.Add.Interfaces.{rollback, look_up, run_deferred_calls}
use rit_k8s_rdma_sriov_cni.Tests.Commands.{args}
use rit_k8s_rdma_sriov_cni.Tests.Machine.{
  World, in_goroutine, or_missing, find, without, conf, request, pf, world,
}
use rit_k8s_rdma_sriov_cni.Tests.Removal.{eth0}
use rit_k8s_rdma_sriov_cni.Tests.Devices.{chosen_vf, set_up}
use rit_k8s_rdma_sriov_cni.Tests.Mover.{
  space, shown, stored, looked_up, named, moved, inside, mover, view, where_is, called,
}
use rit_k8s_rdma_sriov_cni.Tests.Obeying.{mover-Obeys}

-- The VF's device is in the host's namespace.
abbrev pub before : World
before = record world { devices = ("enp1s0f2", 0) ∷ [] }

abbrev pub bound : World
bound = record before {
  files = ("/var/lib/cni/sriov/c1-eth0", "{}") ∷ before.files;
  devices = ("eth0", 1) ∷ [];
}

abbrev pub given_back : World
given_back = record before { devices = ("dev9", 0) ∷ [] }

counts :
    get_sriov_numfs mover.files "enp1s0" (mover.link_by_name "enp1s0" before).1
    ≡ (ok (pos 4), before)
unfolding get_sriov_numfs find or_missing looked_up space
counts = refl

chooses : choose_vf mover conf "enp1s0" request (rounds_of (pos 4)) before ≡ (ok chosen_vf, before)
unfolding choose_vf scan_vfs vf_round after_lstat look_at take_vf follow get_pci_address
    set_vf_bandwidth_limits
chooses = refl

sets_up : setup_vf mover conf "enp1s0" "eth0" "c1" 1 request before ≡ (ok set_up, bound)
unfolding setup_vf get_sriov_numfs choose_vf scan_vfs vf_round after_lstat look_at take_vf follow
    get_pci_address set_vf_bandwidth_limits check_choice set_vlans bind_netdev sort_infos move_links
    name_links rename_links rename_link set_up_link save_net_conf save_scratch_net_conf find
    or_missing in_goroutine looked_up named moved inside shown stored space join_path
sets_up = refl

pub reads :
    get_net_conf mover.files mover.json "c1" "eth0" "/var/lib/cni/sriov" bound
    ≡ (ok conf, record bound { files = before.files })
unfolding get_net_conf join_path find or_missing without
reads = refl

pub releases :
    release_vf_custom mover conf eth0 "c1" "/var/run/netns/p" (pf ∷ []) bound
    ≡ (ok false, given_back)
unfolding release_vf_custom release_by_mode custom_netdev enter_pod release_links custom_rounds
    find_vf_of sees_shared detach get_net_conf join_path find or_missing without rename_link
    in_goroutine set_vf_bandwidth_limits looked_up named moved inside shown stored space itoa
releases = refl

-- The thread is in the pod's namespace.
abbrev undone : World
undone = record given_back { current_ns = 1 }

undoes : release_vf mover conf "eth0" "c1" 1 "enp1s0" (some 0) bound ≡ (ok tt, undone)
unfolding release_vf release_netdev release_rounds round_names reset_rates sees_shared detach
    get_net_conf join_path find or_missing without rename_link in_goroutine set_vf_bandwidth_limits
    looked_up named moved inside shown stored space itoa
undoes = refl

release_vf-Left_example : Left view 0 0 bound undone × (view.current undone ≡ 1)
unfolding space where_is called stored
release_vf-Left_example =
    release_vf-Left mover view mover-Obeys conf conf "eth0" "c1" "enp1s0" 1 (some 0) 0 bound
      (record bound { files = before.files }) undone refl refl reads refl (refl, refl) undoes

looks_up : look_up mover args 1 "eth0" bound ≡ (ok (success tt), bound)
unfolding look_up looked_up inside in_goroutine shown stored space
looks_up = refl

run_deferred_calls-setup_vf_example :
    (run_deferred_calls mover args 1 conf
        (some (host "x"))
        (rollback "eth0" "enp1s0" (some 0) ∷ [])
        bound
      ≡ (ok tt, undone))
    × Returned view "enp1s0f2" before undone
run_deferred_calls-setup_vf_example =
    run_deferred_calls-setup_vf mover view mover-Obeys args 1 conf conf conf (host "x") "enp1s0"
      "eth0" "enp1s0f2" request (some 0) [] (pos 4) chosen_vf set_up before before before bound
      bound bound (record bound { files = before.files }) undone refl counts chooses refl
      (λ e. ground (arith, eq_iff "enp1s0f2" "eth0")) sets_up (refl, refl) looks_up refl refl reads
      refl undoes
