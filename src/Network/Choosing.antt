-- ===== src/Network/Choosing.antt =====
-- The first half of `setupVF`, up to the VLANs, which leaves the view of the devices as it is.
use rit_k8s_rdma_sriov_cni.Base.{
  not, ◌&&◌, length, ◌==◌, ◌=?◌, ℕ, zero, suc, ◌+◌, String, Bool, List, [], ◌∷◌,
}
use rit_k8s_rdma_sriov_cni.Go.{Error, Run, Tried, success, failure}
use rit_k8s_rdma_sriov_cni.Go.Strconv.{ℤ, pos}
use rit_k8s_rdma_sriov_cni.Conf.{NetConf, max_shared_vf}
use rit_k8s_rdma_sriov_cni.Host.{Host, Link, InterfaceRequest}
use rit_k8s_rdma_sriov_cni.Device.{get_pci_address, set_shared_vf_vlan, cut_parent, last_other}
use rit_k8s_rdma_sriov_cni.Setup.{
  VfFailure, Choice, Round, again, chosen, take_vf, look_at, after_lstat, vf_round, follow,
  scan_vfs, choose_vf, check_choice, set_vlans,
}
use rit_k8s_rdma_sriov_cni.Network.{View, IsQuiet, Obeys}
use rit_k8s_rdma_sriov_cni.Network.Quiet.{
  bind-IsQuiet, pure-IsQuiet, fail-IsQuiet, panics-IsQuiet, if-IsQuiet, orelse-IsQuiet,
  attempt-IsQuiet, set_vf_bandwidth_limits-IsQuiet,
}

module _ {W : Type 0} (h : Host W) (v : View W) (law : Obeys h v) where
  cut_parent-IsQuiet : (path : String) → IsQuiet v (cut_parent path)
  unfolding cut_parent
  cut_parent-IsQuiet path = if-IsQuiet v _ (panics-IsQuiet v) (pure-IsQuiet v _)

  get_pci_address-IsQuiet :
      (if_name : String) (vf : ℕ) → IsQuiet v (get_pci_address h.files if_name vf)
  unfolding get_pci_address
  get_pci_address-IsQuiet if_name vf = bind-IsQuiet v (orelse-IsQuiet v _ (law.seeing _)) λ symlink.
      if-IsQuiet v _ (fail-IsQuiet v _)
        (bind-IsQuiet v (orelse-IsQuiet v _ (law.linking _)) cut_parent-IsQuiet)

  set_shared_vf_vlan-IsQuiet :
      (if_name : String) (vf : ℕ) (vlan : ℤ)
      → IsQuiet v (set_shared_vf_vlan h.netlink h.files if_name vf vlan)
  unfolding set_shared_vf_vlan
  set_shared_vf_vlan-IsQuiet if_name vf vlan =
      bind-IsQuiet v (orelse-IsQuiet v _ (law.seeing _)) λ _.
        bind-IsQuiet v (orelse-IsQuiet v _ (law.listing _)) λ infos.
          if-IsQuiet v (not (length infos == max_shared_vf)) (fail-IsQuiet v _) (
            if-IsQuiet v (last_other if_name "" infos =? "") (fail-IsQuiet v _) (
              bind-IsQuiet v (orelse-IsQuiet v _ (law.looking _))
                λ link. orelse-IsQuiet v _ (law.setting_vlan link (pos vf) vlan)))

  module _ (if_name : String) (request : InterfaceRequest) where
    take_vf-IsQuiet :
        (vf : ℕ) (c : Choice) (infos : List String)
        → IsQuiet v (take_vf h if_name request vf c infos)
    unfolding take_vf
    take_vf-IsQuiet vf c infos =
        if-IsQuiet v _
          (bind-IsQuiet v (orelse-IsQuiet v _ (get_pci_address-IsQuiet if_name vf)) λ pci.
            bind-IsQuiet v
              (orelse-IsQuiet v _ (set_vf_bandwidth_limits-IsQuiet h v law if_name _ _ _))
              λ _. pure-IsQuiet v _)
          (fail-IsQuiet v _)

    look_at-IsQuiet :
        (total vf : ℕ) (c : Choice) (infos : List String)
        → IsQuiet v (look_at h if_name request total vf c infos)
    unfolding look_at
    look_at-IsQuiet total vf c [] = if-IsQuiet v _ (fail-IsQuiet v _) (pure-IsQuiet v _)
    look_at-IsQuiet total vf c (info ∷ infos) = take_vf-IsQuiet vf c (info ∷ infos)

    after_lstat-IsQuiet :
        (total vf : ℕ) (c : Choice) (opened : Tried Error Bool)
        → IsQuiet v (after_lstat h if_name request total vf c opened)
    unfolding after_lstat
    after_lstat-IsQuiet total vf c (failure e) =
        if-IsQuiet v _ (fail-IsQuiet v _) (pure-IsQuiet v _)
    after_lstat-IsQuiet total vf c (success b) =
        bind-IsQuiet v (orelse-IsQuiet v _ (law.listing _)) (look_at-IsQuiet total vf c)

    vf_round-IsQuiet :
        (total vf : ℕ) (c : Choice) → IsQuiet v (vf_round h if_name request total vf c)
    unfolding vf_round
    vf_round-IsQuiet total vf c =
        bind-IsQuiet v (attempt-IsQuiet v (law.seeing _)) (after_lstat-IsQuiet total vf c)

    follow-IsQuiet :
        (next : Choice → Run W VfFailure Choice) (r : Round)
        → ((c : Choice) → IsQuiet v (next c))
        → IsQuiet v (follow h if_name request next r)
    unfolding follow
    follow-IsQuiet next (again c) q = q c
    follow-IsQuiet next (chosen c) q = pure-IsQuiet v c

    scan_vfs-IsQuiet :
        (total rounds vf : ℕ) (c : Choice)
        → IsQuiet v (scan_vfs h if_name request total rounds vf c)
    unfolding scan_vfs
    scan_vfs-IsQuiet total zero vf c = pure-IsQuiet v c
    scan_vfs-IsQuiet total (suc rounds) vf c =
        bind-IsQuiet v (vf_round-IsQuiet total vf c)
          λ r. follow-IsQuiet _ r (scan_vfs-IsQuiet total rounds (vf + 1))

  pub choose_vf-IsQuiet :
      (conf : NetConf) (if_name : String) (request : InterfaceRequest) (total : ℕ)
      → IsQuiet v (choose_vf h conf if_name request total)
  unfolding choose_vf
  choose_vf-IsQuiet conf if_name request total = scan_vfs-IsQuiet if_name request total total 0 _

  pub check_choice-IsQuiet : (if_name : String) (c : Choice) → IsQuiet v (check_choice h if_name c)
  unfolding check_choice
  check_choice-IsQuiet if_name c =
      if-IsQuiet v (not (length c.infos == 1) && not (length c.infos == max_shared_vf))
        (fail-IsQuiet v _)
        (if-IsQuiet v (c.conf.shared_vf && not c.conf.l2_mode) (fail-IsQuiet v _)
          (pure-IsQuiet v tt))

  pub set_vlans-IsQuiet :
      (master : Link) (if_name : String) (c : Choice) → IsQuiet v (set_vlans h master if_name c)
  unfolding set_vlans
  set_vlans-IsQuiet master if_name c = if-IsQuiet v _ (pure-IsQuiet v tt) (
      bind-IsQuiet v (orelse-IsQuiet v _ (law.setting_vlan master (pos c.vf_idx) c.conf.vlan)) λ _.
        if-IsQuiet v _
          (orelse-IsQuiet v _ (set_shared_vf_vlan-IsQuiet if_name c.vf_idx c.conf.vlan))
          (pure-IsQuiet v tt))
