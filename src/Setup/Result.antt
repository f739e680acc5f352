-- ===== src/Setup/Result.antt =====
-- What `setupVF` returns when it succeeds.
use rit_k8s_rdma_sriov_cni.Base.{
  ℕ, zero, suc, List, ◌<◌, ◌≡◌, ◌⊎◌, inl, inr, none, sym, ap, subst, String, true, [], ◌∷◌, length,
  arith, if◌then◌else◌,
}
use rit_k8s_rdma_sriov_cni.Go.{ok, ◌orelse◌}
use rit_k8s_rdma_sriov_cni.Go.Laws.{by_parts, by_branch, orelse-ok_eq}
use rit_k8s_rdma_sriov_cni.Go.Strconv.{ℤ, pos}
use rit_k8s_rdma_sriov_cni.Conf.{NetConf}
use rit_k8s_rdma_sriov_cni.Host.{Host, Ns, InterfaceRequest}
use rit_k8s_rdma_sriov_cni.Device.{get_sriov_numfs, get_pci_address}
use rit_k8s_rdma_sriov_cni.Setup.{
  passed, failed, Choice, VfSetup, rounds_of, with_device, choose_vf, check_choice, set_vlans,
  bind_dpdk, bind_netdev, setup_vf,
}
use rit_k8s_rdma_sriov_cni.Setup.Chosen.{SameSettings, Outcomes, choose_vf-after}
use rit_k8s_rdma_sriov_cni.Setup.Rounds.{IsFirstUsed}
use rit_k8s_rdma_sriov_cni.Setup.First.{choose_vf-IsFirstUsed}

-- The configuration of a VF that was set up: the settings are kept, the device is recorded, and a
-- shared device means L2 mode.
pub record IsSetUp (before : NetConf) (pod_if_name : String) (total : ℕ) (s : VfSetup)
    : Type 0 where
  pub settings : SameSettings s.conf before
  pub in_range : s.vf_idx < total
  pub ifname : s.conf.dpdk_conf.ifname ≡ pod_if_name
  pub vfid : s.conf.dpdk_conf.vfid ≡ pos s.vf_idx
  pub shared_l2 : s.conf.shared_vf ≡ true → s.conf.l2_mode ≡ true

module _ {W : Type 0} (h : Host W) where
  pub check_choice-ok :
      (if_name : String) (c : Choice) (w : W)
      → (check_choice h if_name c w).0 ≡ ok tt
      → ((length c.infos ≡ 1) ⊎ (length c.infos ≡ 2))
        × (c.conf.shared_vf ≡ true → c.conf.l2_mode ≡ true)
  unfolding check_choice
  check_choice-ok if_name c w e = ground arith

  bind_dpdk-ok :
      (conf : NetConf) (cid : String) (c : Choice) (w : W) {s : VfSetup}
      → (bind_dpdk h conf cid c w).0 ≡ ok s
      → s ≡ record { vf_idx = c.vf_idx; conf = conf }
  unfolding bind_dpdk
  bind_dpdk-ok conf cid c w e = ground arith

  bind_netdev-ok :
      (conf : NetConf) (pod_if_name cid : String) (netns : Ns) (c : Choice) (w : W) {s : VfSetup}
      → (bind_netdev h conf pod_if_name cid netns c w).0 ≡ ok s
      → s ≡ record { vf_idx = c.vf_idx; conf = conf }
  unfolding bind_netdev
  bind_netdev-ok conf pod_if_name cid netns c w e = ground arith

  finish-ok :
      (conf : NetConf) (pod_if_name cid : String) (netns : Ns) (c : Choice) (w : W) {s : VfSetup}
      → ((if conf.dpdk_mode
            then bind_dpdk h conf cid c
            else bind_netdev h conf pod_if_name cid netns c)
          w).0
        ≡ ok s
      → s ≡ record { vf_idx = c.vf_idx; conf = conf }
  finish-ok conf pod_if_name cid netns c w e =
      by_branch conf.dpdk_mode (bind_dpdk h conf cid c) (bind_netdev h conf pod_if_name cid netns c)
        w e (bind_dpdk-ok conf cid c w) (bind_netdev-ok conf pod_if_name cid netns c w)

  taken-IsSetUp :
      (before : NetConf) (pod_if_name : String) (total : ℕ) (c : Choice)
      → Outcomes before total c
      → ((length c.infos ≡ 1) ⊎ (length c.infos ≡ 2))
      → (c.conf.shared_vf ≡ true → c.conf.l2_mode ≡ true)
      → IsSetUp before pod_if_name total
          (record { vf_idx = c.vf_idx; conf = with_device c.conf c.pci_addr pod_if_name c.vf_idx })
  taken-IsSetUp before pod_if_name total c (inl idle) n l2 =
      absurd (ground (arith, idle.no_devices))
  taken-IsSetUp before pod_if_name total c (inr t) n l2 = ground arith

  -- The VF is the first used one from the state `w` on, and the PCI address that was read for it is
  -- in the configuration.
  abbrev pub IsAddressed : String → W → VfSetup → Type 0
  IsAddressed if_name w s =
      (info : String) × (infos : List String) × (f : IsFirstUsed h if_name 0 w s.vf_idx info infos)
      × ((get_pci_address h.files if_name s.vf_idx f.listed).0 ≡ ok s.conf.dpdk_conf.pci_addr)

  chosen-IsAddressed :
      (conf : NetConf) (if_name pod_if_name : String) (request : InterfaceRequest) (n : ℕ)
      (c : Choice) (w u : W)
      → c.vf_idx < n
      → choose_vf h conf if_name request n w ≡ (ok c, u)
      → IsAddressed if_name w
          (record { vf_idx = c.vf_idx; conf = with_device c.conf c.pci_addr pod_if_name c.vf_idx })
  chosen-IsAddressed conf if_name pod_if_name request zero c w u lt e = absurd (omega (arith, lt))
  chosen-IsAddressed conf if_name pod_if_name request (suc k) c w u lt e =
      let (info, infos, _, (f, read)) = choose_vf-IsFirstUsed h if_name request conf k c w u e in
      (info, infos, f, read)

  -- A `setupVF` that succeeds has read the number of the PF's VFs, and took one below it, the first
  -- used one. It keeps the settings of the configuration and records the VF's number, the PCI address
  -- that was read for the VF and the pod's interface name in it; if the configuration then is shared,
  -- it is in L2 mode.
  pub setup_vf-IsSetUp :
      (conf : NetConf) (if_name pod_if_name cid : String) (netns : Ns) (request : InterfaceRequest)
      (w : W) {s : VfSetup}
      → (setup_vf h conf if_name pod_if_name cid netns request w).0 ≡ ok s
      → (total : ℤ) × (counted : W) × (get_sriov_numfs h.files if_name (h.link_by_name if_name w).1
          ≡ (ok total, counted))
        × IsSetUp conf pod_if_name (rounds_of total) s
        × IsAddressed if_name counted s
  unfolding setup_vf
  setup_vf-IsSetUp conf if_name pod_if_name cid netns request w {s} e =
      by_parts
        (h.link_by_name if_name
          orelse failed none conf "failed to lookup master %q: %v" (if_name ∷ []))
        _ w e
        λ master w1 found e1.
          by_parts (get_sriov_numfs h.files if_name orelse passed none conf) _ w1 e1
            λ total w2 counted e2.
              by_parts (choose_vf h conf if_name request (rounds_of total)) _ w2 e2 λ c w3 chose e3.
                by_parts (check_choice h if_name c) _ w3 e3 λ _ w4 accepted e4.
                  by_parts (set_vlans h master if_name c) _ w4 e4 λ _ w5 _ e5.
                    let (devices, l2) = check_choice-ok if_name c w3 (ap (λ r. r.0) accepted) in
                    let n = rounds_of total in
                    let is_set_up =
                      taken-IsSetUp conf pod_if_name n c
                        (choose_vf-after h conf if_name request n w2 (ap (λ r. r.0) chose)) devices
                        l2 in
                    let addressed =
                      chosen-IsAddressed conf if_name pod_if_name request n c w2 w3
                        is_set_up.in_range chose in
                    let (is, at) =
                      subst (λ t. IsSetUp conf pod_if_name n t × IsAddressed if_name w2 t)
                        (sym (
                          finish-ok (with_device c.conf c.pci_addr pod_if_name c.vf_idx) pod_if_name
                            cid netns c w5 e5))
                        (is_set_up, addressed) in
                    (
                      total,
                      w2,
                      subst (λ v. get_sriov_numfs h.files if_name v ≡ (ok total, w2))
                          (sym (ap (λ r. r.1) found))
                          (orelse-ok_eq (get_sriov_numfs h.files if_name) _ w1 counted),
                      is,
                      at,
                    )
