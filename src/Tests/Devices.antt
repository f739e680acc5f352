-- ===== src/Tests/Devices.antt =====
-- The theorems on a VF's devices, at concrete inputs.
use rit_k8s_rdma_sriov_cni.Base.{
  ℕ, true, subst, ◌≡◌, ◌≢◌, refl, ap, ◌∙◌, sym, String, Option, none, some, List, [], ◌∷◌,
  Bool-cases, ◌=?◌, inl, inr, eq_iff, eq_refl, text_ne, arith, if◌then◌else◌,
}
use rit_k8s_rdma_sriov_cni.Go.{Error, host, ok, err, Run, pure, fail}
use rit_k8s_rdma_sriov_cni.Go.Strconv.{ℤ, pos, itoa}
use rit_k8s_rdma_sriov_cni.Conf.{NetConf}
use rit_k8s_rdma_sriov_cni.Host.{Netlink, Link}
use rit_k8s_rdma_sriov_cni.Device.{
  get_sriov_numfs, get_pci_address, set_vf_bandwidth_limits, rename_link, set_up_link,
}
use rit_k8s_rdma_sriov_cni.Scratch.{save_net_conf, save_scratch_net_conf, get_net_conf}
use rit_k8s_rdma_sriov_cni.Scratch.RoundTrip.{KeepsFiles, get-save}
use rit_k8s_rdma_sriov_cni.Go.FilePath.{join_path}
use rit_k8s_rdma_sriov_cni.Setup.{
  VfSetup, Choice, rounds_of, choose_vf, setup_vf, scan_vfs, vf_round, after_lstat, look_at,
  take_vf, follow, check_choice, set_vlans, bind_netdev, sort_infos, move_links, name_links,
  rename_links,
}
use rit_k8s_rdma_sriov_cni.Setup.Result.{IsSetUp, IsAddressed, setup_vf-IsSetUp}
use rit_k8s_rdma_sriov_cni.Setup.Shared.{Renames, name_links-shared}
use rit_k8s_rdma_sriov_cni.Device.Vlan.{ResetsFirst, reset_vf_vlan-ResetsFirst}
use rit_k8s_rdma_sriov_cni.Device.{find_vf, is_there, reset_vf_vlan}
use rit_k8s_rdma_sriov_cni.Host.{Files}
use rit_k8s_rdma_sriov_cni.Tests.Machine.{
  World, find, without, or_missing, renamed, in_goroutine, netlink, files, machine, conf, request,
  settings, world, conf_l2,
}

-- The first VF of the PF with a device
abbrev pub chosen_vf : Choice
chosen_vf = record { conf = conf; vf_idx = 0; infos = "enp1s0f2" ∷ []; pci_addr = "0000:01:00.2" }

chooses : (choose_vf (machine settings) conf "enp1s0" request 4 world).0 ≡ ok chosen_vf
unfolding choose_vf scan_vfs vf_round after_lstat look_at take_vf follow get_pci_address
    set_vf_bandwidth_limits
chooses = refl

abbrev pub set_up : VfSetup
set_up = record {
  vf_idx = 0;
  conf = record conf {
    dpdk_conf = record conf.dpdk_conf { pci_addr = "0000:01:00.2"; ifname = "eth0"; vfid = pos 0 };
  };
}

pub sets_up : (setup_vf (machine settings) conf "enp1s0" "eth0" "c1" 1 request world).0 ≡ ok set_up
unfolding setup_vf get_sriov_numfs choose_vf scan_vfs vf_round after_lstat look_at take_vf follow
    get_pci_address set_vf_bandwidth_limits check_choice set_vlans bind_netdev sort_infos move_links
    name_links rename_links rename_link set_up_link save_net_conf save_scratch_net_conf find
    or_missing renamed in_goroutine
sets_up = refl

setup_vf-IsSetUp_example :
    (total : ℤ) × (counted : World) × (get_sriov_numfs files "enp1s0" world ≡ (ok total, counted))
    × IsSetUp conf "eth0" (rounds_of total) set_up
    × IsAddressed (machine settings) "enp1s0" counted set_up
unfolding or_missing find
setup_vf-IsSetUp_example =
    setup_vf-IsSetUp (machine settings) conf "enp1s0" "eth0" "c1" 1 request world sets_up

find-without : {A : Type 0} (key : String) (m : List (String × A)) → find key (without key m) ≡ none
unfolding find without
find-without key [] = refl
find-without key ((k, v) ∷ rest) = elim (Bool-cases (key =? k)) [
  | inl e ↦ rw e (find-without key rest)
  | inr e ↦ rw (e, e) (find-without key rest)
]

missing :
    {A : Type 0} (o : Option A) (w : World)
    → o ≡ none
    → or_missing o w ≡ (err (host "not found"), w)
unfolding or_missing
missing none w e = refl
missing (some a) w e = cc

files-KeepsFiles : KeepsFiles files
unfolding or_missing find
files-KeepsFiles = record {
  read-write = λ path bytes w v written.
      let p : record w { files = (path, bytes) ∷ w.files } ≡ v = ap (λ r. r.1) written in
      subst (λ x. files.read_file path x ≡ (ok bytes, x)) p (rw (eq_refl path) refl);
  read-remove = λ path w v removed.
      let p : record w { files = without path w.files } ≡ v = ap (λ r. r.1) removed in
      (
        host "not found",
        missing (find path v.files) v
            (subst (λ x. find path x.files ≡ none) p (find-without path w.files)),
      );
}

abbrev saved_conf : NetConf
saved_conf = set_up.conf

abbrev path : String
path = "/var/lib/cni/sriov/c1-eth0"

abbrev saved_world : World
saved_world = record world { files = (path, "{}") ∷ world.files }

get-save_example :
    (get_net_conf files
        (machine (record settings { conf = saved_conf })).json
        "c1"
        "eth0"
        "/var/lib/cni/sriov"
        saved_world
      ≡ (ok saved_conf, world))
    × ((c : NetConf)
        → (get_net_conf files
            (machine (record settings { conf = saved_conf })).json
            "c1"
            "eth0"
            "/var/lib/cni/sriov"
            world).0
          ≢ ok c)
unfolding save_net_conf save_scratch_net_conf join_path without
get-save_example =
    get-save files (machine (record settings { conf = saved_conf })).json files-KeepsFiles "c1"
      "/var/lib/cni/sriov" saved_conf world saved_world world (λ bytes e. refl) refl refl

-- A netlink with one device, which is found under its name only
device : World → String
device w = elim w.devices [ [] ↦ "" | (name, i) ∷ rest ↦ name ]

by_name : String → String → Run World Error Link
by_name name name' = if name =? name' then pure (record { index = 9 }) else fail (host "not found")

by_name-keeps : (name name' : String) (w : World) → (by_name name name' w).1 ≡ w
unfolding by_name
by_name-keeps name name' w = elim (Bool-cases (name =? name')) [
  | inl e ↦ rw e refl
  | inr e ↦ rw e refl
]

by_name-ne :
    (name name' : String) (l : Link) (w : World) → name ≢ name' → (by_name name name' w).0 ≢ ok l
unfolding by_name
by_name-ne name name' l w ne e = ground (arith, text_ne name name' ne)

abbrev one_device : Netlink World
unfolding device by_name
one_device = record {
  link_by_name = λ name w. by_name name (device w) w;
  link_set_name = λ l new w. (ok tt, record w { devices = (new, 9) ∷ [] });
  link_set_up = λ l. pure tt;
  link_set_down = λ l. pure tt;
  link_set_ns_fd = λ l ns. pure tt;
  link_set_vf_vlan = λ l vf vlan. pure tt;
}

Elsewhere : String → World → Type 0
Elsewhere name w = name ≢ device w

one_device-Renames : Renames one_device Elsewhere
unfolding Elsewhere device one_device
one_device-Renames = record {
  given_up =
      λ old new l w u v ne found renamed_to e. ne (e ∙ sym (ap (λ r. device r.1) renamed_to));
  not_found = λ old l w ne e. by_name-ne old (device w) l w ne e;
  looking = λ old name w ne. subst (Elsewhere old) (sym (by_name-keeps name (device w) w)) ne;
  setting_up = λ old l w ne. ne;
}

name_links-shared_example : ¬ (
    (name_links
      (record (machine settings) { netlink = one_device })
      conf_l2
      "eth0"
      "c1"
      "ens2d1"
      0
      ("ens2" ∷ "ens2d1" ∷ [])
      (record world { devices = ("ens2d1", 9) ∷ [] })).0
    ≡ ok tt)
name_links-shared_example =
    name_links-shared (record (machine settings) { netlink = one_device }) Elsewhere
      one_device-Renames conf_l2 "eth0" "c1" "ens2d1" 0 "ens2" "ens2d1"
      (record world { devices = ("ens2d1", 9) ∷ [] }) (λ e. ground (arith, eq_iff "ens2d1" "eth0"))

-- The device stands under the second VF.
abbrev under_second : Files World
under_second = record files {
  stat = λ path w.
      if path =? "/sys/class/net/enp1s0/device/virtfn1/net/dev9"
      then (ok tt, w)
      else (err (host "no such file"), w);
  is_not_exist = λ e. true;
}

resets : reset_vf_vlan netlink under_second "enp1s0" "dev9" world ≡ (ok tt, world)
unfolding reset_vf_vlan get_sriov_numfs find_vf is_there find or_missing itoa
resets = refl

reset_vf_vlan-ResetsFirst_example :
    (k : ℕ) × (counted : World) × (get_sriov_numfs under_second "enp1s0" world
      ≡ (ok (pos k), counted))
    × ResetsFirst under_second "enp1s0" "dev9" netlink k counted world
reset_vf_vlan-ResetsFirst_example =
    reset_vf_vlan-ResetsFirst under_second "enp1s0" "dev9" netlink world world resets
