-- ===== src/Setup/Shared.antt =====
-- The naming of two devices that share a VF.
use rit_k8s_rdma_sriov_cni.Base.{
  subst, ℕ, ◌≡◌, ◌≢◌, ap, String, ◌<>◌, Bool, true, false, [], ◌∷◌, if◌then◌else◌,
}
use rit_k8s_rdma_sriov_cni.Go.{Error, wrapf, ok, ◌orelse◌, pure}
use rit_k8s_rdma_sriov_cni.Go.Strconv.{itoa}
use rit_k8s_rdma_sriov_cni.Go.Laws.{
  by_parts, orelse-ok, orelse-ok_eq, by_parts_eq, Keeps, bind-Keeps,
}
use rit_k8s_rdma_sriov_cni.Conf.{NetConf}
use rit_k8s_rdma_sriov_cni.Host.{Host, Netlink, Link}
use rit_k8s_rdma_sriov_cni.Device.{rename_link, set_up_link}
use rit_k8s_rdma_sriov_cni.Setup.{rename_links, name_links}

-- What is assumed of netlink: a name that its device has given up for another is not found, and
-- looking for a device or setting one up does not bring it back.
pub record Renames {W : Type 0} (n : Netlink W) (Absent : String → W → Type 0) : Type 0 where
  pub given_up :
      (old new : String) (l : Link) (w u v : W)
      → old ≢ new
      → n.link_by_name old w ≡ (ok l, u)
      → n.link_set_name l new u ≡ (ok tt, v)
      → Absent old v
  pub not_found :
      (old : String) (l : Link) (w : W) → Absent old w → ¬ ((n.link_by_name old w).0 ≡ ok l)
  pub looking : (old name : String) → Keeps (Absent old) (n.link_by_name name)
  pub setting_up : (old : String) (l : Link) → Keeps (Absent old) (n.link_set_up l)

module _ {W : Type 0} (h : Host W) (Absent : String → W → Type 0)
    (law : Renames h.netlink Absent) where
  rename_link-gone :
      (old new : String) (w v : W)
      → old ≢ new
      → rename_link h.netlink old new w ≡ (ok tt, v)
      → Absent old v
  unfolding rename_link
  rename_link-gone old new w v ne e =
      by_parts_eq (h.link_by_name old orelse wrapf "failed to lookup device %q: %v" (old ∷ [])) _ w
        e
        λ l u found e1.
          law.given_up old new l w u v ne
            (orelse-ok_eq (h.link_by_name old) (wrapf "failed to lookup device %q: %v" (old ∷ [])) w
              found)
            e1

  rename_link-absent :
      (old new : String) (w : W) → Absent old w → ¬ ((rename_link h.netlink old new w).0 ≡ ok tt)
  unfolding rename_link
  rename_link-absent old new w a e =
      by_parts (h.link_by_name old orelse wrapf "failed to lookup device %q: %v" (old ∷ [])) _ w e
        λ l u found _. law.not_found old l w a (
          orelse-ok (h.link_by_name old) (wrapf "failed to lookup device %q: %v" (old ∷ [])) w
            (ap (λ r. r.0) found))

  set_up_link-Keeps : (old name : String) → Keeps (Absent old) (set_up_link h.netlink name)
  unfolding set_up_link
  set_up_link-Keeps old name =
      bind-Keeps (Absent old)
        (h.link_by_name name orelse wrapf "failed to set up device %q: %v" (name ∷ [])) _
        (law.looking old name) λ l. law.setting_up old l

  upping-keeps :
      (old name : String) (l2 : Bool) (w v : W)
      → Absent old w
      → (if l2
            then (set_up_link h.netlink name
                orelse wrapf "failed to set up the pod interface name %q: %v" (name ∷ []))
            else pure {E = Error} tt)
          w
        ≡ (ok tt, v)
      → Absent old v
  upping-keeps old name true w v a e =
      subst (λ r. Absent old r.1) e (set_up_link-Keeps old name w a)
  upping-keeps old name false w v a e = subst (λ r. Absent old r.1) e a

  -- The naming of two devices that share a VF never succeeds: the loop renames the last moved name
  -- twice, and after the first time no device has it. It is assumed that this name is not the pod's
  -- name already, and that a name that a device has given up is not found again.
  pub name_links-shared :
      (conf : NetConf) (pod_if_name cid vf_name : String) (vf : ℕ) (a b : String) (w : W)
      → vf_name ≢ pod_if_name
      → ¬ ((name_links h conf pod_if_name cid vf_name vf (a ∷ b ∷ []) w).0 ≡ ok tt)
  unfolding name_links rename_links
  name_links-shared conf pod_if_name cid vf_name vf a b w ne e =
      by_parts (rename_links h conf.l2_mode pod_if_name vf_name vf 2 (a ∷ b ∷ []) 1 pod_if_name) _ w
        e
        λ _ w' named _.
          by_parts_eq
            (rename_link h.netlink vf_name pod_if_name
              orelse wrapf "failed to rename %d vf of the device %q to %q: %v"
                  (itoa vf ∷ a ∷ pod_if_name ∷ []))
            _ w named
            λ _ w1 first e1.
              by_parts_eq
                (if conf.l2_mode
                  then (set_up_link h.netlink pod_if_name
                      orelse wrapf "failed to set up the pod interface name %q: %v"
                          (pod_if_name ∷ []))
                  else pure tt)
                _ w1 e1
                λ _ w2 upped e2.
                  by_parts
                    (rename_link h.netlink vf_name (pod_if_name <> "d" <> itoa 1)
                      orelse wrapf "failed to rename %d vf of the device %q to %q: %v"
                          (itoa vf ∷ b ∷ (pod_if_name <> "d" <> itoa 1) ∷ []))
                    _ w2 (ap (λ r. r.0) e2)
                    λ _ w3 second _.
                      rename_link-absent vf_name (pod_if_name <> "d" <> itoa 1) w2
                        (upping-keeps vf_name pod_if_name conf.l2_mode w1 w2
                          (rename_link-gone vf_name pod_if_name w w1 ne (
                            orelse-ok_eq (rename_link h.netlink vf_name pod_if_name)
                              (wrapf "failed to rename %d vf of the device %q to %q: %v"
                                (itoa vf ∷ a ∷ pod_if_name ∷ []))
                              w first))
                          upped)
                        (orelse-ok (rename_link h.netlink vf_name (pod_if_name <> "d" <> itoa 1))
                          (wrapf "failed to rename %d vf of the device %q to %q: %v"
                            (itoa vf ∷ b ∷ (pod_if_name <> "d" <> itoa 1) ∷ []))
                          w2 (ap (λ r. r.0) second))
