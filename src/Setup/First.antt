-- ===== src/Setup/First.antt =====
-- Which VF the loop of `setupVF` chooses.
use rit_k8s_rdma_sriov_cni.Base.{
  ℕ, zero, suc, ◌+◌, ◌≡◌, inl, inr, sym, ap, ◌∙◌, subst, String, false, List, [], ◌∷◌, ◌==◌, arith,
}
use rit_k8s_rdma_sriov_cni.Go.{ok, Run}
use rit_k8s_rdma_sriov_cni.Go.Laws.{by_parts_eq}
use rit_k8s_rdma_sriov_cni.Conf.{NetConf}
use rit_k8s_rdma_sriov_cni.Host.{Host, InterfaceRequest}
use rit_k8s_rdma_sriov_cni.Device.{get_pci_address}
use rit_k8s_rdma_sriov_cni.Setup.{Choice, Round, VfFailure, choose_vf, scan_vfs, vf_round, follow}
use rit_k8s_rdma_sriov_cni.Setup.Rounds.{Skips, IsFirstUsed, Chooses, Ends, vf_round-Ends}

module _ {W : Type 0} (h : Host W) (if_name : String) (request : InterfaceRequest) where
  later-Chooses :
      (vf : ℕ) (w u : W) (c : Choice)
      → ((k : ℕ) (x : W) → Skips h if_name (vf + 1) u k x → Skips h if_name vf w k x)
      → Chooses h if_name (vf + 1) u c
      → Chooses h if_name vf w c
  later-Chooses vf w u c skip (info, infos, names, (f, read)) = (
    info,
    infos,
    names,
    (
      record {
        link = f.link;
        found = f.found;
        opened = f.opened;
        listed = f.listed;
        skips = skip c.vf_idx f.found f.skips;
        opens = f.opens;
        lists = f.lists;
      },
      read,
    ),
  )

  followed-Chooses :
      (total vf : ℕ) (next : Choice → Run W VfFailure Choice) (r : Round) (c' : Choice) (w x u : W)
      → Ends h if_name request total vf r w x
      → ((c : Choice)
          → (vf + 1 == total) ≡ false
          → next c x ≡ (ok c', u)
          → Chooses h if_name (vf + 1) x c')
      → follow h if_name request next r x ≡ (ok c', u)
      → Chooses h if_name vf w c'
  unfolding follow
  followed-Chooses total vf next r c' w x u (inl (more, (c, is), skip)) later e =
      later-Chooses vf w x c' skip
        (later c more (sym (ap (λ q. follow h if_name request next q x) is) ∙ e))
  followed-Chooses total vf next r c' w x u (inr (c, is, chooses)) later e =
      let same : c ≡ c' =
        cc (ap (λ r. r.0) (sym (ap (λ q. follow h if_name request next q x) is) ∙ e)) in
      subst (Chooses h if_name vf w) same chooses

  is_last : (vf total : ℕ) → vf + 1 ≡ total → ¬ ((vf + 1 == total) ≡ false)
  is_last vf total e other = ground arith

  scan_vfs-Chooses :
      (total rounds vf : ℕ) (c c' : Choice) (w u : W)
      → vf + suc rounds ≡ total
      → scan_vfs h if_name request total (suc rounds) vf c w ≡ (ok c', u)
      → Chooses h if_name vf w c'
  unfolding scan_vfs
  scan_vfs-Chooses total zero vf c c' w u sum e =
      by_parts_eq (vf_round h if_name request total vf c) _ w e λ r x ran rest.
        followed-Chooses total vf (scan_vfs h if_name request total zero (vf + 1)) r c' w x u
          (vf_round-Ends h if_name request total vf c r w x ran)
          (λ c2 more _. absurd (is_last vf total (omega (arith, sum)) more)) rest
  scan_vfs-Chooses total (suc rounds) vf c c' w u sum e =
      by_parts_eq (vf_round h if_name request total vf c) _ w e λ r x ran rest.
        followed-Chooses total vf (scan_vfs h if_name request total (suc rounds) (vf + 1)) r c' w x
          u (vf_round-Ends h if_name request total vf c r w x ran)
          (λ c2 _ ran'. scan_vfs-Chooses total rounds (vf + 1) c2 c' x u (omega (arith, sum)) ran')
          rest

  -- If the PF has VFs and the loop of `setupVF` over them ends without an error, then it has chosen
  -- the first one whose directory of devices is not empty, with the names in the directory: for each
  -- VF before it the directory could not be opened or was empty. The PCI address of the VF is then read.
  pub choose_vf-IsFirstUsed :
      (conf : NetConf) (n : ℕ) (c : Choice) (w u : W)
      → choose_vf h conf if_name request (suc n) w ≡ (ok c, u)
      → (info : String) × (infos : List String) × (c.infos ≡ info ∷ infos)
        × ((f : IsFirstUsed h if_name 0 w c.vf_idx info infos) × ((get_pci_address h.files if_name
                c.vf_idx f.listed).0
              ≡ ok c.pci_addr))
  unfolding choose_vf
  choose_vf-IsFirstUsed conf n c w u e =
      scan_vfs-Chooses (suc n) n 0 (record { conf = conf; vf_idx = 0; infos = []; pci_addr = "" }) c
        w u (omega arith) e
