-- ===== src/Device.antt =====
-- Small operations on devices, sriov/sriov.go: `setVfBandwidthLimits`, `enabledpdkmode`,
-- `getpciaddress`, `getSharedPF`, `getsriovNumfs`, `setSharedVfVlan`, `configSriov`, `resetVfVlan`,
-- `validateSriovEnabled`, `renameLink`, `setUpLink`.
pub mod Vlan
pub mod Shared
use Prim.Native.String.{len, slice}
use rit_k8s_rdma_sriov_cni.Base.{
  ℕ, zero, suc, ◌+◌, ◌-◌, String, ◌<>◌, Bool, true, not, Option, none, some, List, [], ◌∷◌, length,
  ltb, ◌==◌, ◌=?◌, if◌then◌else◌,
}
use rit_k8s_rdma_sriov_cni.Go.{
  Error, host, errorf, wrapf, Run, Tried, success, failure, pure, fail, panics, ◌>>=◌, ◌>>◌,
  ◌orelse◌, attempt,
}
use rit_k8s_rdma_sriov_cni.Go.Strings.{trim_space}
use rit_k8s_rdma_sriov_cni.Go.Strconv.{ℤ, pos, itoa, parse_int}
use rit_k8s_rdma_sriov_cni.Conf.{DpdkConf, max_shared_vf}
use rit_k8s_rdma_sriov_cni.Host.{Netlink, Files, Processes, Sriovnet}

module _ {W : Type 0} (p : Processes W) where
  unfoldable pub set_vf_bandwidth_limits : String → String → String → String → Run W Error Unit
  set_vf_bandwidth_limits pf_name vf_number min_tx_rate max_tx_rate =
      p.start_command (
        "/sbin/ip" ∷ "link" ∷ "set" ∷ "dev" ∷ pf_name ∷ "vf" ∷ vf_number ∷ "max_tx_rate"
        ∷ max_tx_rate ∷ "min_tx_rate" ∷ min_tx_rate ∷ [])
      orelse wrapf "Iproute2 command failed with message: %s" []

  unfoldable pub enable_dpdk_mode : DpdkConf → String → Bool → Run W Error Unit
  enable_dpdk_mode conf ifname dpdk_mode =
      p.run_command (
        conf.dpdk_tool
        ∷ "-b"
        ∷ (if dpdk_mode then conf.dpdk_driver else conf.k_driver)
        ∷ (if dpdk_mode then ifname else conf.pci_addr)
        ∷ [])
      orelse λ out. errorf "DPDK binding failed with err msg %q:" (out ∷ [])

-- The directories of sysfs
abbrev pub net_dir : String → String
net_dir if_name = "/sys/class/net/" <> if_name

abbrev pub virtfn_dir : String → ℕ → String
virtfn_dir if_name vf = net_dir if_name <> "/device/virtfn" <> itoa vf

-- `path[len("../"):]`, which panics on a shorter text; these names are ASCII.
unfoldable pub cut_parent : {W : Type 0} → String → Run W Error String
cut_parent path = if ltb (len path) 3 then panics else pure (slice path 3 (len path))

-- The first other name in a directory
unfoldable pub other_name : String → List String → Option String
other_name if_name [] = none
other_name if_name (file ∷ rest) =
    let later = other_name if_name rest in if file =? if_name then later else some file

-- `fullpath[:len(fullpath)-len(ifName)]`
unfoldable pub cut_name : {W : Type 0} → String → String → Run W Error String
cut_name full if_name =
    if ltb (len full) (len if_name) then panics else pure (slice full 0 (len full - len if_name))

unfoldable pub or_empty : Tried Error String → String
or_empty (success s) = s
or_empty (failure e) = ""

unfoldable pub or_no_files : Tried Error (List String) → List String
or_no_files (success l) = l
or_no_files (failure e) = []

module _ {W : Type 0} (f : Files W) where
  unfoldable pub get_pci_address : String → ℕ → Run W Error String
  unfolding cut_parent
  get_pci_address if_name vf = do
    let vf_dir = virtfn_dir if_name vf
    symlink ←
        f.lstat vf_dir
        orelse wrapf "can't get the symbolic link of virtfn%d dir of the device %q: %v"
            (itoa vf ∷ if_name ∷ [])
    if not symlink
        then fail (
            errorf "No symbolic link for the virtfn%d dir of the device %q"
              (itoa vf ∷ if_name ∷ []))
        else do
          pci_info ←
              f.read_link vf_dir
              orelse wrapf "can't read the symbolic link of virtfn%d dir of the device %q: %v"
                  (itoa vf ∷ if_name ∷ [])
          cut_parent pci_info

  unfoldable pub found_pf : Option String → Run W Error String
  found_pf none = fail (errorf "Shared PF not found" [])
  found_pf (some file) = pure file

  -- The errors of `EvalSymlinks` and `ReadDir` are overwritten or not read.
  unfoldable pub get_shared_pf : String → Run W Error String
  unfolding cut_name or_empty or_no_files other_name found_pf
  get_shared_pf if_name = do
    symlink ←
        f.lstat (net_dir if_name)
        orelse wrapf "can't get the symbolic link of the device %q: %v" (if_name ∷ [])
    if not symlink
        then fail (errorf "No symbolic link for dir of the device %q" (if_name ∷ []))
        else do
          full ← attempt (f.eval_symlinks (net_dir if_name))
          parent_dir ← cut_name (or_empty full) if_name
          dir_list ← attempt (f.read_dir parent_dir)
          found_pf (other_name if_name (or_no_files dir_list))

  unfoldable pub parsed_number : String → Option ℤ → Run W Error ℤ
  parsed_number if_name (some n) = pure n
  parsed_number if_name none = fail (
      wrapf "failed to convert sriov_numfs(byte value) to int of device %q: %v" (if_name ∷ [])
        (host "strconv.ParseInt"))

  unfoldable pub get_sriov_numfs : String → Run W Error ℤ
  unfolding parsed_number trim_space parse_int
  get_sriov_numfs if_name = do
    let sriov_file = net_dir if_name <> "/device/sriov_numvfs"
    f.lstat sriov_file orelse wrapf "failed to open the sriov_numfs of device %q: %v" (if_name ∷ [])
    content ←
        f.read_file sriov_file
        orelse wrapf "failed to read the sriov_numfs of device %q: %v" (if_name ∷ [])
    if content =? ""
        then fail (errorf "no data in the file %q" (sriov_file ∷ []))
        else parsed_number if_name (parse_int (trim_space content))

-- The loop of `setSharedVfVlan`: the last other name
unfoldable pub last_other : String → String → List String → String
last_other if_name shared [] = shared
last_other if_name shared (dir ∷ infos) =
    last_other if_name (if if_name =? dir then shared else dir) infos

module _ {W : Type 0} (n : Netlink W) (f : Files W) where
  unfoldable pub set_shared_vf_vlan : String → ℕ → ℤ → Run W Error Unit
  unfolding last_other
  set_shared_vf_vlan if_name vf_idx vlan = do
    let vf_dir = net_dir if_name <> "/device/net"
    f.lstat vf_dir orelse wrapf "failed to open the net dir of the device %q: %v" (if_name ∷ [])
    infos ←
        f.read_dir vf_dir
        orelse wrapf "failed to read the net dir of the device %q: %v" (if_name ∷ [])
    if not (length infos == max_shared_vf)
        then fail (errorf "Given PF - %q is not having shared VF" (if_name ∷ []))
        else do
          let shared = last_other if_name "" infos
          if shared =? "" then fail (errorf "Shared ifname can't be empty" []) else do
            iflink ←
                n.link_by_name shared
                orelse wrapf "failed to lookup the shared ifname %q: %v" (shared ∷ [])
            n.link_set_vf_vlan iflink (pos vf_idx) vlan
                orelse wrapf "failed to set vf %d vlan: %v for shared ifname %q"
                    (itoa vf_idx ∷ shared ∷ [])

module _ {W : Type 0} (f : Files W) where
  -- The loop of `resetVfVlan` from `vf` on: a VF is found unless its directory does not exist.
  unfoldable pub is_there : Tried Error Unit → Bool
  is_there (success _) = true
  is_there (failure e) = not (f.is_not_exist e)

  unfoldable pub find_vf : String → String → ℕ → ℕ → Run W Error (Option ℕ)
  unfolding is_there
  find_vf pf_name vf_name zero vf = pure none
  find_vf pf_name vf_name (suc rounds) vf = do
    found ← attempt (f.stat (virtfn_dir pf_name vf <> "/net/" <> vf_name))
    let later = find_vf pf_name vf_name rounds (vf + 1)
    if is_there found then pure (some vf) else later

module _ {W : Type 0} (n : Netlink W) (f : Files W) where
  unfoldable pub reset_found : String → String → Option ℕ → Run W Error Unit
  reset_found pf_name vf_name none = fail (errorf "failed to get VF id for %s" (vf_name ∷ []))
  reset_found pf_name vf_name (some vf) = do
    pf_link ←
        n.link_by_name pf_name orelse λ _. errorf "Master device %s not found\n" (pf_name ∷ [])
    n.link_set_vf_vlan pf_link (pos vf) (pos 0)
        orelse wrapf "failed to reset vlan tag for vf %d: %v" (itoa vf ∷ [])

  unfoldable pub reset_among : String → String → ℤ → Run W Error Unit
  unfolding find_vf reset_found
  reset_among pf_name vf_name (pos (suc k)) = do
    found ← find_vf f pf_name vf_name (suc k) 0
    reset_found pf_name vf_name found
  reset_among pf_name vf_name _ =
      fail (errorf "no virtual function in the device %q" (pf_name ∷ []))

  unfoldable pub reset_vf_vlan : String → String → Run W Error Unit
  unfolding get_sriov_numfs reset_among
  reset_vf_vlan pf_name vf_name = do
    total ← get_sriov_numfs f pf_name
    reset_among pf_name vf_name total

module _ {W : Type 0} (f : Files W) (s : Sriovnet W) where
  unfoldable pub config_sriov : String → Run W Error Unit
  config_sriov master = do
    s.enable_sriov master
    handle ← s.get_pf_netdev_handle master
    s.config_vfs handle true

  configure_if_zero : String → ℤ → Run W Error Unit
  configure_if_zero pf_name (pos zero) =
      config_sriov pf_name orelse λ _. errorf "no virtual function in the device %q" (pf_name ∷ [])
  configure_if_zero pf_name _ = pure tt

  unfoldable pub validate_sriov_enabled : String → Run W Error Unit
  unfolding get_sriov_numfs configure_if_zero config_sriov
  validate_sriov_enabled pf_name = do
    total ← get_sriov_numfs f pf_name
    configure_if_zero pf_name total

module _ {W : Type 0} (n : Netlink W) where
  unfoldable pub rename_link : String → String → Run W Error Unit
  rename_link cur_name new_name = do
    link ← n.link_by_name cur_name orelse wrapf "failed to lookup device %q: %v" (cur_name ∷ [])
    n.link_set_name link new_name

  unfoldable pub set_up_link : String → Run W Error Unit
  set_up_link if_name = do
    link ← n.link_by_name if_name orelse wrapf "failed to set up device %q: %v" (if_name ∷ [])
    n.link_set_up link
