-- ===== src/Network/Steps.antt =====
-- The steps of `setupVF` that move a VF's device and name it, in the view of the devices.
use rit_k8s_rdma_sriov_cni.Base.{
  ℕ, String, ◌≡◌, ◌≢◌, sym, ap, ◌∙◌, subst, some, [], ◌∷◌, text_ne, ◌=?◌, if◌then◌else◌,
}
use rit_k8s_rdma_sriov_cni.Go.{wrapf, ok, pure, ◌orelse◌}
use rit_k8s_rdma_sriov_cni.Go.Strconv.{itoa}
use rit_k8s_rdma_sriov_cni.Go.Laws.{by_parts_eq, orelse-ok_eq, orelse_eq, if_false, Keeps_at}
use rit_k8s_rdma_sriov_cni.Conf.{NetConf}
use rit_k8s_rdma_sriov_cni.Host.{Host, Link, Ns}
use rit_k8s_rdma_sriov_cni.Device.{rename_link, set_up_link}
use rit_k8s_rdma_sriov_cni.Setup.{
  failed, passed, away_from_eth0, move_links, rename_links, name_links,
}
use rit_k8s_rdma_sriov_cni.Network.{
  View, Moved, Placed, Same, Puts, Same-trans, Same-Puts, Puts-Same, Puts-trans, Puts-inside,
  quiet_at, Obeys,
}
use rit_k8s_rdma_sriov_cni.Network.Quiet.{
  if-IsQuiet, orelse-IsQuiet, pure-IsQuiet, set_up_link-IsQuiet, save_net_conf-IsQuiet,
}
use rit_k8s_rdma_sriov_cni.Network.Rename.{rename_link-Puts}

module _ {W : Type 0} (h : Host W) (v : View W) (law : Obeys h v) where
  pub away_from_eth0-other :
      (l : Link) (info : String) (w : W) → info ≢ "eth0" → away_from_eth0 h l info w ≡ (ok info, w)
  unfolding away_from_eth0
  away_from_eth0-other l info w ne = if_false (info =? "eth0") _ _ w (text_ne info "eth0" ne)

  -- Up to the move of the device
  pub about_to_move :
      (conf : NetConf) (vf : ℕ) (info name : String) (l : Link) (w w1 w2 w3 : W)
      → info ≢ "eth0"
      → h.link_by_name info w ≡ (ok l, w1)
      → (away_from_eth0 h l info orelse passed (some vf) conf) w1 ≡ (ok name, w2)
      → h.link_set_up l w2 ≡ (ok tt, w3)
      → (id : ℕ) × Placed v id (v.current w) info w
        × v.Denotes l id w3
        × Same v w w3
        × (info ≡ name)
  about_to_move conf vf info name l w w1 w2 w3 ne found away upped =
      let (id, denotes, placed) = law.finds info l w w1 found in
      let kept =
        sym (
          orelse_eq (away_from_eth0 h l info) (passed (some vf) conf) w1
            (away_from_eth0-other l info w1 ne))
        ∙ away in
      (
        id,
        placed,
        Keeps_at (v.Denotes l id) (h.link_set_up l) (law.up_denotes l l id) upped
            (subst (v.Denotes l id) (ap (λ r. r.1) kept) denotes),
        Same-trans v (quiet_at v (law.looking info) found) (
            Same-trans v (quiet_at v (pure-IsQuiet v info) kept)
              (quiet_at v (law.setting_up l) upped)),
        cc (ap (λ r. r.0) kept),
      )

  pub move_links-Moved :
      (conf : NetConf) (vf : ℕ) (netns : Ns) (info name : String) (w u : W)
      → info ≢ "eth0"
      → move_links h conf vf netns "" (info ∷ []) w ≡ (ok name, u)
      → (name ≡ info) × Moved v info (v.space netns) info w u
  unfolding move_links
  move_links-Moved conf vf netns info name w u ne e =
      by_parts_eq
        (h.link_by_name info
          orelse failed (some vf) conf "failed to lookup vf device %q: %v" (info ∷ []))
        _ w e
        λ l w1 found e1.
          by_parts_eq (away_from_eth0 h l info orelse passed (some vf) conf) _ w1 e1
            λ name' w2 away e2.
              by_parts_eq
                (h.link_set_up l
                  orelse failed (some vf) conf "failed to setup vf %d device: %v" (itoa vf ∷ []))
                _ w2 e2
                λ _ w3 upped e3.
                  by_parts_eq
                    (h.link_set_ns_fd l netns
                      orelse failed (some vf) conf "failed to move vf %d to netns: %v"
                          (itoa vf ∷ []))
                    _ w3 e3
                    λ _ w4 moved e4.
                      let (id, placed, denotes, before, same_name) =
                        about_to_move conf vf info name' l w w1 w2 w3 ne
                          (orelse-ok_eq (h.link_by_name info) _ w found) away
                          (orelse-ok_eq (h.link_set_up l) _ w2 upped) in
                      let put =
                        law.moves l netns id w3 w4 denotes
                          (orelse-ok_eq (h.link_set_ns_fd l netns) _ w3 moved) in
                      let same_result : name' ≡ name = cc (ap (λ r. r.0) e4) in
                      (
                        sym same_result ∙ sym same_name,
                        (
                          id,
                          placed,
                          Puts-Same v
                              (Same-Puts v before (
                                subst (λ n. Puts v id (v.space netns) n w3 w4)
                                  (ap (λ d. d.name_of id) before.0 ∙ placed.1) put))
                              (quiet_at v (pure-IsQuiet v name') e4),
                        ),
                      )

  name_links-Puts :
      (conf : NetConf) (pod_if_name cid vf_name : String) (vf id : ℕ) (info : String) (w u : W)
      → Placed v id (v.current w) vf_name w
      → name_links h conf pod_if_name cid vf_name vf (info ∷ []) w ≡ (ok tt, u)
      → Puts v id (v.current w) pod_if_name w u
  unfolding name_links rename_links
  name_links-Puts conf pod_if_name cid vf_name vf id info w u placed e =
      by_parts_eq (rename_links h conf.l2_mode pod_if_name vf_name vf 1 (info ∷ []) 1 pod_if_name) _
        w e
        λ name w1 named e1.
          by_parts_eq
            (rename_link h.netlink vf_name pod_if_name
              orelse wrapf "failed to rename %d vf of the device %q to %q: %v"
                  (itoa vf ∷ info ∷ pod_if_name ∷ []))
            _ w named
            λ _ w2 first e2.
              by_parts_eq
                (if conf.l2_mode
                  then (set_up_link h.netlink pod_if_name
                      orelse wrapf "failed to set up the pod interface name %q: %v"
                          (pod_if_name ∷ []))
                  else pure tt)
                _ w2 e2
                λ _ w3 upped e3.
                  Puts-Same v
                    (Puts-Same v
                      (Puts-Same v
                        (rename_link-Puts h v law vf_name pod_if_name id w w2 placed
                          (orelse-ok_eq (rename_link h.netlink vf_name pod_if_name) _ w first))
                        (quiet_at v
                          (if-IsQuiet v conf.l2_mode
                            (orelse-IsQuiet v _ (set_up_link-IsQuiet h v law pod_if_name))
                            (pure-IsQuiet v tt))
                          upped))
                      (quiet_at v (pure-IsQuiet v _) e3))
                    (quiet_at v
                      (orelse-IsQuiet v _ (save_net_conf-IsQuiet h v law cid conf.cni_dir conf)) e1)

  pub placed-Moved :
      (conf : NetConf) (pod_if_name cid vf_name : String) (netns : Ns) (vf : ℕ) (info : String)
      (w w1 u : W)
      → info ≢ "eth0"
      → move_links h conf vf netns "" (info ∷ []) w ≡ (ok vf_name, w1)
      → h.do_in_ns netns (name_links h conf pod_if_name cid vf_name vf (info ∷ [])) w1 ≡ (ok tt, u)
      → Moved v info (v.space netns) pod_if_name w u
  placed-Moved conf pod_if_name cid vf_name netns vf info w w1 u ne moved named =
      let (is_info, (id, was, put)) = move_links-Moved conf vf netns info vf_name w w1 ne moved in
      let (a, b, da, ca, ran, du, cu) =
        law.does_in_ns netns (name_links h conf pod_if_name cid vf_name vf (info ∷ [])) w1 u
          named in
      let there : Placed v id (v.current a) vf_name a = (
        ap (λ d. d.ns_of id) da ∙ put.placed.0 ∙ sym ca,
        ap (λ d. d.name_of id) da ∙ put.placed.1 ∙ sym is_info,
      ) in
      let inside = name_links-Puts conf pod_if_name cid vf_name vf id info a b there ran in
      (
        id,
        was,
        Puts-trans v put
            (Puts-inside v da du cu (subst (λ ns. Puts v id ns pod_if_name a b) ca inside)),
      )
