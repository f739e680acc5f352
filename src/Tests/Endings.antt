-- ===== src/Tests/Endings.antt =====
-- The theorems on how calls and loops end, at concrete inputs.
use rit_k8s_rdma_sriov_cni.Base.{
  ◌↔◌, arith, List, ◌+◌, ◌^◌, ◌<◌, ◌≡◌, refl, String, Bool, true, false, [], ◌∷◌, ◌⊎◌, inl, inr,
  if◌then◌else◌,
}
use rit_k8s_rdma_sriov_cni.Go.{Error, host, Outcome, ok, err}
use rit_k8s_rdma_sriov_cni.Go.Strconv.{pos}
use rit_k8s_rdma_sriov_cni.Host.{NetInterface}
use rit_k8s_rdma_sriov_cni.Mutex.{mutex_name, max_attempts, acquire_shm_mutex}
use rit_k8s_rdma_sriov_cni.Mutex.Ending.{Returns, Refused, timed_out, acquire_shm_mutex-ends}
use rit_k8s_rdma_sriov_cni.Del.{release_interfaces}
use rit_k8s_rdma_sriov_cni.Del.Releasing.{Releases, release_interfaces-Releases_iff}
use rit_k8s_rdma_sriov_cni.Device.Shared.{IsBeside, get_shared_pf-IsBeside}
use rit_k8s_rdma_sriov_cni.Device.{
  get_shared_pf, cut_name, or_empty, or_no_files, other_name, found_pf, get_pci_address,
  set_vf_bandwidth_limits,
}
use rit_k8s_rdma_sriov_cni.Setup.{
  choose_vf, scan_vfs, vf_round, after_lstat, look_at, take_vf, follow,
}
use rit_k8s_rdma_sriov_cni.Setup.Rounds.{IsFirstUsed}
use rit_k8s_rdma_sriov_cni.Setup.First.{choose_vf-IsFirstUsed}
use rit_k8s_rdma_sriov_cni.Setup.Bounds.{setup_vf-fits}
use rit_k8s_rdma_sriov_cni.Tests.Machine.{World, shm, machine, settings, conf, pf, world, request}
use rit_k8s_rdma_sriov_cni.Tests.Commands.{args}
use rit_k8s_rdma_sriov_cni.Tests.Removal.{eth0}
use rit_k8s_rdma_sriov_cni.Tests.Devices.{chosen_vf, set_up, sets_up}

abbrev Answers : Outcome Error String × World → Type 0
Answers r =
    ((file : String) × (u : World) × (r ≡ (ok file, u)))
    ⊎ ((e : Error) × (u : World) × (r ≡ (err e, u)))

either :
    (b : Bool) (r q : Outcome Error String × World)
    → Answers r
    → Answers q
    → Answers (if b then r else q)
either true r q a c = a
either false r q a c = c

pub shm-Returns : Returns shm
shm-Returns = record {
  creating = λ w.
      either w.locked _ _ (inr (host "file exists", w, refl))
        (inl (mutex_name, record w { locked = true }, refl));
  opening =
      λ w. either w.locked _ _ (inl (mutex_name, w, refl)) (inr (host "no such file", w, refl));
  sleeping = λ w. (w, refl);
}

acquire_shm_mutex-ends_example :
    ((file : String) × (v : World) × (acquire_shm_mutex shm world ≡ (ok file, v)))
    ⊎ ((e : Error) × (v : World) × (acquire_shm_mutex shm world ≡ (err (timed_out shm e), v))
        × Refused shm max_attempts world e v)
acquire_shm_mutex-ends_example = acquire_shm_mutex-ends shm shm-Returns world

abbrev lo : NetInterface
lo = record { name = "lo"; mac = "" }

release_interfaces-Releases_iff_example :
    (release_interfaces (machine settings) conf args (pf ∷ []) (lo ∷ eth0 ∷ []) world
      ≡ (ok tt, world))
    ↔ Releases (machine settings) args (pf ∷ []) conf (lo ∷ eth0 ∷ []) world world
release_interfaces-Releases_iff_example =
    release_interfaces-Releases_iff (machine settings) args (pf ∷ []) conf (lo ∷ eth0 ∷ []) world
      world

setup_vf-fits_example : (set_up.conf.dpdk_conf.vfid ≡ pos 0) × (0 + 1 < 2 ^ 63)
setup_vf-fits_example =
    setup_vf-fits (machine settings) conf "enp1s0" "eth0" "c1" 1 request world sets_up

chooses : choose_vf (machine settings) conf "enp1s0" request 4 world ≡ (ok chosen_vf, world)
unfolding choose_vf scan_vfs vf_round after_lstat look_at take_vf follow get_pci_address
    set_vf_bandwidth_limits
chooses = refl

choose_vf-IsFirstUsed_example :
    (info : String) × (infos : List String) × (chosen_vf.infos ≡ info ∷ infos)
    × ((f : IsFirstUsed (machine settings) "enp1s0" 0 world 0 info infos) × ((get_pci_address
            (machine settings).files
            "enp1s0"
            0
            f.listed).0
          ≡ ok chosen_vf.pci_addr))
choose_vf-IsFirstUsed_example =
    choose_vf-IsFirstUsed (machine settings) "enp1s0" request conf 3 chosen_vf world world chooses

get_shared_pf-IsBeside_example : IsBeside (machine settings).files "enp1s0" "enp1s0f2" world
unfolding get_shared_pf cut_name or_empty or_no_files other_name found_pf
get_shared_pf-IsBeside_example =
    get_shared_pf-IsBeside (machine settings).files "enp1s0" "enp1s0f2" world world (omega arith)
      refl
