-- ===== src/Network/Rename.antt =====
-- `renameLink` in the view of the devices.
use rit_k8s_rdma_sriov_cni.Base.{ℕ, String, ◌≡◌, sym, ap, ◌∙◌, subst, [], ◌∷◌}
use rit_k8s_rdma_sriov_cni.Go.{Error, wrapf, ok, ◌orelse◌}
use rit_k8s_rdma_sriov_cni.Go.Laws.{by_parts_eq, orelse-ok_eq, Keeps, bind-Keeps}
use rit_k8s_rdma_sriov_cni.Host.{Host, Link}
use rit_k8s_rdma_sriov_cni.Device.{rename_link}
use rit_k8s_rdma_sriov_cni.Network.{View, Placed, Puts, Same-Puts, quiet_at, Obeys}

module _ {W : Type 0} (h : Host W) (v : View W) (law : Obeys h v) where
  abbrev finding : String → Error → Error
  finding name = wrapf "failed to lookup device %q: %v" (name ∷ [])

  -- The device that is looked up is the only one of its name in the thread's namespace.
  pub finds_only :
      (name : String) (id : ℕ) (l : Link) (w u : W)
      → Placed v id (v.current w) name w
      → h.link_by_name name w ≡ (ok l, u)
      → v.Denotes l id u
  finds_only name id l w u placed found =
      let (i, denotes, here) = law.finds name l w u found in
      subst (λ j. v.Denotes l j u)
        (law.unique w i id (here.0 ∙ sym placed.0) (here.1 ∙ sym placed.1)) denotes

  pub rename_link-Puts :
      (old new : String) (id : ℕ) (w u : W)
      → Placed v id (v.current w) old w
      → rename_link h.netlink old new w ≡ (ok tt, u)
      → Puts v id (v.current w) new w u
  unfolding rename_link
  rename_link-Puts old new id w u placed e =
      by_parts_eq (h.link_by_name old orelse finding old) _ w e λ l x found e1.
        let looked = orelse-ok_eq (h.link_by_name old) (finding old) w found in
        let same = quiet_at v (law.looking old) looked in
        let here : (v.devices x).ns_of id ≡ v.current w = ap (λ d. d.ns_of id) same.0 ∙ placed.0 in
        Same-Puts v same (
          subst (λ ns. Puts v id ns new x u) here
            (law.renames l new id x u (finds_only old id l w x placed looked) e1))

  pub rename_link-denotes :
      (l : Link) (id : ℕ) (old new : String)
      → Keeps (v.Denotes l id) (rename_link h.netlink old new)
  unfolding rename_link
  rename_link-denotes l id old new =
      bind-Keeps (v.Denotes l id) (h.link_by_name old orelse finding old) _
        (law.looking_denotes l id old) λ l'. law.renaming_denotes l l' id new
