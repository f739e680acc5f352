-- ===== src/Setup.antt =====
-- Taking a VF for a pod, sriov/sriov.go: `setupVF` and `LinksByIndex`. The configuration is
-- mutated through a pointer, so it comes back beside an error too.
mod Select
mod Place
pub mod Chosen
pub mod Bounds
pub mod Rounds
pub mod First
pub mod Result
pub mod Shared
pub mod Sorted
unfoldable pub use Select.*
unfoldable pub use Place.*
use rit_k8s_rdma_sriov_cni.Base.{
  ℕ, String, true, some, none, List, [], ◌∷◌, not, ◌&&◌, length, ◌==◌, if◌then◌else◌,
}
use rit_k8s_rdma_sriov_cni.Go.{Error, errorf, wrapf, Run, pure, fail, panics, ◌>>=◌, ◌>>◌, ◌orelse◌}
use rit_k8s_rdma_sriov_cni.Go.Strconv.{ℤ, pos, negsuc, itoa}
use rit_k8s_rdma_sriov_cni.Conf.{NetConf, max_shared_vf, is_zero}
use rit_k8s_rdma_sriov_cni.Host.{Host, Link, Ns, InterfaceRequest}
use rit_k8s_rdma_sriov_cni.Device.{get_sriov_numfs, set_shared_vf_vlan, enable_dpdk_mode}
use rit_k8s_rdma_sriov_cni.Scratch.{save_net_conf}

pub record VfSetup : Type 0 where
  pub vf_idx : ℕ
  pub conf : NetConf

-- `vf <= (vfTotal - 1)` from 0 on
abbrev pub rounds_of : ℤ → ℕ
rounds_of (pos n) = n
rounds_of (negsuc n) = 0

-- `conf.DPDKConf` gets the device.
abbrev pub with_device : NetConf → String → String → ℕ → NetConf
with_device conf pci_addr pod_if_name vf = record conf {
  dpdk_conf = record conf.dpdk_conf { pci_addr = pci_addr; ifname = pod_if_name; vfid = pos vf };
}

unfoldable pub first_info : {W : Type 0} → List String → Run W VfFailure String
first_info [] = panics
first_info (info ∷ infos) = pure info

module _ {W : Type 0} (h : Host W) where
  -- The two tests after the loop
  unfoldable pub check_choice : String → Choice → Run W VfFailure Unit
  check_choice if_name c =
      if not (length c.infos == 1) && not (length c.infos == max_shared_vf)
      then failing (some c.vf_idx) c.conf
          (errorf "no virutal network resources avaiable for the %q" (if_name ∷ []))
      else if c.conf.shared_vf && not c.conf.l2_mode
      then failing (some c.vf_idx) c.conf
          (errorf "l2enable mode must be true to use shared net interface %q" (if_name ∷ []))
      else pure tt

  unfoldable pub set_vlans : Link → String → Choice → Run W VfFailure Unit
  set_vlans master if_name c = if is_zero c.conf.vlan then pure tt else do
    h.link_set_vf_vlan master (pos c.vf_idx) c.conf.vlan
        orelse failed (some c.vf_idx) c.conf "failed to set vf %d vlan: %v" (itoa c.vf_idx ∷ [])
    if c.conf.shared_vf
        then set_shared_vf_vlan h.netlink h.files if_name c.vf_idx c.conf.vlan
          orelse failed (some c.vf_idx) c.conf "failed to set shared vf %d vlan: %v"
              (itoa c.vf_idx ∷ [])
        else pure tt

  unfoldable pub bind_dpdk : NetConf → String → Choice → Run W VfFailure VfSetup
  bind_dpdk conf cid c = do
    save_net_conf h.files h.json cid conf.cni_dir conf orelse passed (some c.vf_idx) conf
    info ← first_info c.infos
    enable_dpdk_mode h.processes conf.dpdk_conf info true orelse passed (some c.vf_idx) conf
    pure (record { vf_idx = c.vf_idx; conf = conf })

  unfoldable pub bind_netdev : NetConf → String → String → Ns → Choice → Run W VfFailure VfSetup
  bind_netdev conf pod_if_name cid netns c = do
    infos ← sort_infos h c.infos
    vf_name ← move_links h conf c.vf_idx netns "" infos
    h.do_in_ns netns (name_links h conf pod_if_name cid vf_name c.vf_idx infos)
        orelse passed (some c.vf_idx) conf
    pure (record { vf_idx = c.vf_idx; conf = conf })

  unfoldable pub setup_vf :
      NetConf → String → String → String → Ns → InterfaceRequest → Run W VfFailure VfSetup
  setup_vf conf if_name pod_if_name cid netns request = do
    master ←
        h.link_by_name if_name
        orelse failed none conf "failed to lookup master %q: %v" (if_name ∷ [])
    total ← get_sriov_numfs h.files if_name orelse passed none conf
    c ← choose_vf h conf if_name request (rounds_of total)
    check_choice if_name c
    set_vlans master if_name c
    let conf' = with_device c.conf c.pci_addr pod_if_name c.vf_idx
    if conf'.dpdk_mode then bind_dpdk conf' cid c else bind_netdev conf' pod_if_name cid netns c
