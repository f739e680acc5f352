-- ===== src/Setup/Chosen.antt =====
-- What the loop of `setupVF` has found when it ends.
use rit_k8s_rdma_sriov_cni.Base.{
  ℕ, zero, suc, ◌+◌, ◌≤◌, ◌<◌, ◌≡◌, refl, subst, Bool, String, true, ◌⊎◌, inl, inr, none, List, [],
  ◌∷◌, length, arith, leb, ◌==◌, if◌then◌else◌, ◌<>◌,
}
use rit_k8s_rdma_sriov_cni.Go.{Error, ◌orelse◌, attempt, ok, Tried, success, failure, Run}
use rit_k8s_rdma_sriov_cni.Go.Strconv.{itoa}
use rit_k8s_rdma_sriov_cni.Device.{virtfn_dir, get_pci_address}
use rit_k8s_rdma_sriov_cni.Go.Laws.{bind-ok}
use rit_k8s_rdma_sriov_cni.Conf.{NetConf, max_shared_vf}
use rit_k8s_rdma_sriov_cni.Host.{Host, InterfaceRequest}
use rit_k8s_rdma_sriov_cni.Setup.{
  VfFailure, failed, Choice, Round, again, chosen, take_vf, look_at, after_lstat, vf_round, follow,
  scan_vfs, choose_vf,
}

-- All fields but `Sharedvf` and `DPDKConf`, and of the latter those that configure the drivers
pub record SameSettings (a b : NetConf) : Type 0 where
  pub name : a.name ≡ b.name
  pub plugin_type : a.plugin_type ≡ b.plugin_type
  pub ipam_type : a.ipam_type ≡ b.ipam_type
  pub dns : a.dns ≡ b.dns
  pub dpdk_mode : a.dpdk_mode ≡ b.dpdk_mode
  pub cni_dir : a.cni_dir ≡ b.cni_dir
  pub if0name : a.if0name ≡ b.if0name
  pub l2_mode : a.l2_mode ≡ b.l2_mode
  pub vlan : a.vlan ≡ b.vlan
  pub dpdk_tool : a.dpdk_conf.dpdk_tool ≡ b.dpdk_conf.dpdk_tool
  pub k_driver : a.dpdk_conf.k_driver ≡ b.dpdk_conf.k_driver
  pub dpdk_driver : a.dpdk_conf.dpdk_driver ≡ b.dpdk_conf.dpdk_driver

-- A VF of the `total` was taken, with one device or two; two make the configuration shared.
pub record IsTaken (before : NetConf) (total : ℕ) (c : Choice) : Type 0 where
  pub settings : SameSettings c.conf before
  pub in_range : c.vf_idx < total
  pub devices : (length c.infos ≡ 1) ⊎ (length c.infos ≡ 2)
  pub shared : c.conf.shared_vf ≡ (if length c.infos == 2 then true else before.shared_vf)

-- No VF so far.
pub record IsIdle (before : NetConf) (c : Choice) : Type 0 where
  pub unchanged : c.conf ≡ before
  pub no_devices : c.infos ≡ []

abbrev AfterRound : NetConf → ℕ → Round → Type 0
AfterRound before total (again c) = IsIdle before c
AfterRound before total (chosen c) = IsTaken before total c

abbrev pub Outcomes : NetConf → ℕ → Choice → Type 0
Outcomes before total c = IsIdle before c ⊎ IsTaken before total c

module _ {W : Type 0} (h : Host W) (if_name : String) (request : InterfaceRequest) where
  abbrev pub taken : ℕ → Choice → List String → String → Choice
  taken vf c infos pci_addr = record {
    conf = if length infos == max_shared_vf then record c.conf { shared_vf = true } else c.conf;
    vf_idx = vf;
    infos = infos;
    pci_addr = pci_addr;
  }

  pub take_vf-eq :
      (vf : ℕ) (c : Choice) (infos : List String) (w : W) {r : Round}
      → (take_vf h if_name request vf c infos w).0 ≡ ok r
      → (pci_addr : String) × (leb (length infos) max_shared_vf ≡ true)
        × (r ≡ chosen (taken vf c infos pci_addr))
        × ((get_pci_address h.files if_name vf w).0 ≡ ok pci_addr)
  unfolding take_vf
  take_vf-eq vf c infos w e = ground arith

  taken-IsTaken :
      (total vf : ℕ) (c : Choice) (info : String) (infos : List String) (pci_addr : String)
      → vf < total
      → leb (length (info ∷ infos)) max_shared_vf ≡ true
      → IsTaken c.conf total (taken vf c (info ∷ infos) pci_addr)
  taken-IsTaken total vf c info infos pci_addr lt small = ground arith

  look_at-after :
      (total vf : ℕ) (c : Choice) (infos : List String) (w : W) {r : Round}
      → vf < total
      → c.infos ≡ []
      → (look_at h if_name request total vf c infos w).0 ≡ ok r
      → AfterRound c.conf total r
  unfolding look_at
  look_at-after total vf c [] w {r = again c'} lt idle e = ground arith
  look_at-after total vf c [] w {r = chosen c'} lt idle e = ground arith
  look_at-after total vf c (info ∷ infos) w lt idle e =
      let (pci_addr, small, eq, _) = take_vf-eq vf c (info ∷ infos) w e in
      rw eq (taken-IsTaken total vf c info infos pci_addr lt small)

  after_lstat-after :
      (total vf : ℕ) (c : Choice) (opened : Tried Error Bool) (w : W) {r : Round}
      → vf < total
      → c.infos ≡ []
      → (after_lstat h if_name request total vf c opened w).0 ≡ ok r
      → AfterRound c.conf total r
  unfolding after_lstat
  after_lstat-after total vf c (failure x) w {r = again c'} lt idle e = ground arith
  after_lstat-after total vf c (failure x) w {r = chosen c'} lt idle e = ground arith
  after_lstat-after total vf c (success b) w lt idle e =
      let (infos, _, e') =
        bind-ok
          (h.read_dir (virtfn_dir if_name vf <> "/net")
            orelse failed none c.conf "failed to read the virtfn%d dir of the device %q: %v"
                (itoa vf ∷ if_name ∷ []))
          (look_at h if_name request total vf c) w e in
      look_at-after total vf c infos _ lt idle e'

  vf_round-after :
      (total vf : ℕ) (c : Choice) (w : W) {r : Round}
      → vf < total
      → c.infos ≡ []
      → (vf_round h if_name request total vf c w).0 ≡ ok r
      → AfterRound c.conf total r
  unfolding vf_round
  vf_round-after total vf c w lt idle e =
      let (opened, _, e') =
        bind-ok (attempt (h.lstat (virtfn_dir if_name vf <> "/net")))
          (after_lstat h if_name request total vf c) w e in
      after_lstat-after total vf c opened _ lt idle e'

  -- One more round, by the claim for the rest of the loop
  follow-after :
      (before : NetConf) (total : ℕ) (next : Choice → Run W VfFailure Choice) (r : Round) (w : W)
      {c' : Choice}
      → AfterRound before total r
      → ((d : Choice) → IsIdle before d → (next d w).0 ≡ ok c' → Outcomes before total c')
      → (follow h if_name request next r w).0 ≡ ok c'
      → Outcomes before total c'
  unfolding follow
  follow-after before total next (again d) w a rest e = rest d a e
  follow-after before total next (chosen d) w {c'} a rest e =
      let p : d ≡ c' = cc in inr (subst (IsTaken before total) p a)

  -- The loop ends with a VF that is in range, or without one.
  scan_vfs-after :
      (total rounds vf : ℕ) (c : Choice) (w : W) {c' : Choice}
      → vf + rounds ≤ total
      → c.infos ≡ []
      → (scan_vfs h if_name request total rounds vf c w).0 ≡ ok c'
      → Outcomes c.conf total c'
  unfolding scan_vfs
  scan_vfs-after total zero vf c w {c'} fits idle e =
      let p : c ≡ c' = cc in
      inl (subst (IsIdle c.conf) p (record { unchanged = refl; no_devices = idle }))
  scan_vfs-after total (suc rounds) vf c w {c'} fits idle e =
      let (r, ran, followed) =
        bind-ok (vf_round h if_name request total vf c)
          (follow h if_name request (scan_vfs h if_name request total rounds (vf + 1))) w e in
      follow-after c.conf total (scan_vfs h if_name request total rounds (vf + 1)) r _
        (vf_round-after total vf c w (omega arith) idle ran)
        (λ d i e'.
          subst (λ conf. Outcomes conf total c') i.unchanged
            (scan_vfs-after total rounds (vf + 1) d _ (omega arith) i.no_devices e'))
        followed

module _ {W : Type 0} (h : Host W) where
  -- The loop over the VFs, if it ends without an error, ends with the configuration unchanged and no
  -- device, or with a VF in range that has one device or two; the configuration is then marked as
  -- shared if there are two, and else keeps its mark.
  pub choose_vf-after :
      (conf : NetConf) (if_name : String) (request : InterfaceRequest) (total : ℕ) (w : W)
      {c : Choice}
      → (choose_vf h conf if_name request total w).0 ≡ ok c
      → Outcomes conf total c
  unfolding choose_vf
  choose_vf-after conf if_name request total w e =
      scan_vfs-after h if_name request total total 0
        (record { conf = conf; vf_idx = 0; infos = []; pci_addr = "" }) w (omega arith) refl e
