-- ===== src/Network/Rounds.antt =====
-- The steps of a release, from looking the device up to resetting its VLAN, in the view of the
-- devices.
use rit_k8s_rdma_sriov_cni.Base.{
  ℕ, suc, String, ◌<>◌, false, Bool-cases, inl, inr, Option, none, some, [], ◌∷◌, ◌≡◌, sym, ap, ◌∙◌,
  subst, if◌then◌else◌,
}
use rit_k8s_rdma_sriov_cni.Go.{Error, wrapf, ok, Run, pure, ◌orelse◌}
use rit_k8s_rdma_sriov_cni.Go.Strconv.{itoa}
use rit_k8s_rdma_sriov_cni.Go.Laws.{by_parts_eq, orelse-ok_eq, if_true, if_false, Keeps_at}
use rit_k8s_rdma_sriov_cni.Conf.{NetConf, is_zero}
use rit_k8s_rdma_sriov_cni.Host.{Host, Ns, VfInfo}
use rit_k8s_rdma_sriov_cni.Device.{reset_vf_vlan, rename_link}
use rit_k8s_rdma_sriov_cni.Release.{detach}
use rit_k8s_rdma_sriov_cni.ReleaseCustom.{round_names, reset_found, custom_rounds}
use rit_k8s_rdma_sriov_cni.Network.{
  View, Placed, Same, Puts, Same-trans, Same-Puts, Puts-Same, Puts-trans, IsQuiet, quiet_at, Obeys,
}
use rit_k8s_rdma_sriov_cni.Network.Quiet.{
  orelse-IsQuiet, pure-IsQuiet, panics-IsQuiet, reset_vf_vlan-IsQuiet,
  set_vf_bandwidth_limits-IsQuiet,
}
use rit_k8s_rdma_sriov_cni.Network.Rename.{finds_only, rename_link-Puts, rename_link-denotes}

module _ {W : Type 0} (h : Host W) (v : View W) (law : Obeys h v) where
  -- A quiet function in another namespace changes nothing either.
  pub do_in_ns-Same :
      (ns : Ns) (m : Run W Error Unit) (w u : W)
      → IsQuiet v m
      → h.do_in_ns ns m w ≡ (ok tt, u)
      → Same v w u
  do_in_ns-Same ns m w u q e =
      let (a, b, da, ca, ran, du, cu) = law.does_in_ns ns m w u e in
      (du ∙ (quiet_at v q ran).0 ∙ da, cu)

  reset_vlan-Same :
      (conf : NetConf) (pf_name dev_name : String) (initns : Ns) (w u : W)
      → (if is_zero conf.vlan
            then pure tt
            else h.do_in_ns initns (reset_vf_vlan h.netlink h.files pf_name dev_name)
              orelse wrapf "failed to reset vlan: %v" [])
          w
        ≡ (ok tt, u)
      → Same v w u
  reset_vlan-Same conf pf_name dev_name initns w u e = elim (Bool-cases (is_zero conf.vlan)) [
    | inl zero ↦ quiet_at v (pure-IsQuiet v tt) (sym (if_true (is_zero conf.vlan) _ _ w zero) ∙ e)
    | inr tag ↦
        do_in_ns-Same initns (reset_vf_vlan h.netlink h.files pf_name dev_name) w u
          (reset_vf_vlan-IsQuiet h v law pf_name dev_name)
          (orelse-ok_eq (h.do_in_ns initns (reset_vf_vlan h.netlink h.files pf_name dev_name)) _ w
            (sym (if_false (is_zero conf.vlan) _ _ w tag) ∙ e))
  ]

  pub detach-Puts :
      (conf : NetConf) (if_name pf_name : String) (initns : Ns) (id : ℕ) (w u : W)
      → Placed v id (v.current w) if_name w
      → detach h conf if_name pf_name initns w ≡ (ok tt, u)
      → (index : ℕ) × Puts v id (v.space initns) ("dev" <> itoa index) w u
  unfolding detach
  detach-Puts conf if_name pf_name initns id w u placed e =
      by_parts_eq
        (h.link_by_name if_name orelse wrapf "failed to lookup vf device %q: %v" (if_name ∷ [])) _ w
        e
        λ l w1 found e1.
          by_parts_eq
            (h.link_set_down l orelse wrapf "failed to down vf device %q: %v" (if_name ∷ [])) _ w1
            e1
            λ _ w2 downed e2.
              by_parts_eq
                (rename_link h.netlink if_name ("dev" <> itoa l.index)
                  orelse wrapf "failed to rename vf device %q to %q: %v"
                      (if_name ∷ ("dev" <> itoa l.index) ∷ []))
                _ w2 e2
                λ _ w3 named e3.
                  by_parts_eq
                    (h.link_set_ns_fd l initns
                      orelse wrapf "failed to move vf device %q to init netns: %v" (if_name ∷ []))
                    _ w3 e3
                    λ _ w4 moved e4.
                      let dev_name = "dev" <> itoa l.index in
                      let denoted =
                        finds_only h v law if_name id l w w1 placed
                          (orelse-ok_eq (h.link_by_name if_name) _ w found) in
                      let before : Same v w w2 =
                        Same-trans v (quiet_at v (orelse-IsQuiet v _ (law.looking if_name)) found)
                          (quiet_at v (orelse-IsQuiet v _ (law.setting_down l)) downed) in
                      let here : Placed v id (v.current w2) if_name w2 = (
                        ap (λ d. d.ns_of id) before.0 ∙ placed.0 ∙ sym before.1,
                        ap (λ d. d.name_of id) before.0 ∙ placed.1,
                      ) in
                      let ran = orelse-ok_eq (rename_link h.netlink if_name dev_name) _ w2 named in
                      let put = rename_link-Puts h v law if_name dev_name id w2 w3 here ran in
                      let denotes : v.Denotes l id w3 =
                        Keeps_at (v.Denotes l id) (rename_link h.netlink if_name dev_name)
                          (rename_link-denotes h v law l id if_name dev_name) ran
                          (Keeps_at (v.Denotes l id) (h.link_set_down l) (law.down_denotes l l id)
                            (orelse-ok_eq (h.link_set_down l) _ w1 downed) denoted) in
                      let there =
                        law.moves l initns id w3 w4 denotes
                          (orelse-ok_eq (h.link_set_ns_fd l initns) _ w3 moved) in
                      (
                        l.index,
                        Puts-Same v
                            (Same-Puts v before (
                              Puts-trans v put (
                                subst (λ n. Puts v id (v.space initns) n w3 w4) put.placed.1
                                  there)))
                            (reset_vlan-Same conf pf_name dev_name initns w4 u e4),
                      )

  pub reset_found-IsQuiet :
      (pf_name : String) (found : Option VfInfo) → IsQuiet v (reset_found h pf_name found)
  unfolding reset_found
  reset_found-IsQuiet pf_name none = panics-IsQuiet v
  reset_found-IsQuiet pf_name (some vf) =
      orelse-IsQuiet v _ (set_vf_bandwidth_limits-IsQuiet h v law pf_name _ "0" "0")

  -- The one round for an interface that is not shared
  pub custom_rounds-Puts :
      (conf : NetConf) (pod_if_name pf_name : String) (initns : Ns) (found : Option VfInfo)
      (left id : ℕ) (w u : W)
      → Placed v id (v.current w) pod_if_name w
      → custom_rounds h conf pod_if_name initns false pf_name found (suc left) 1 w ≡ (ok tt, u)
      → (index : ℕ) × Puts v id (v.space initns) ("dev" <> itoa index) w u
  unfolding custom_rounds round_names
  custom_rounds-Puts conf pod_if_name pf_name initns found left id w u placed e =
      by_parts_eq (detach h conf pod_if_name pf_name initns) _ w e λ _ w1 detached e1.
        by_parts_eq
          (h.do_in_ns initns (reset_found h pf_name found)
            orelse wrapf "failed to reset min/max speed: %v" [])
          _ w1 e1
          λ _ w2 reset e2.
            let (index, put) =
              detach-Puts conf pod_if_name pf_name initns id w w1 placed detached in
            (
              index,
              Puts-Same v
                  (Puts-Same v put (
                    do_in_ns-Same initns (reset_found h pf_name found) w1 w2
                      (reset_found-IsQuiet pf_name found)
                      (orelse-ok_eq (h.do_in_ns initns (reset_found h pf_name found)) _ w1 reset)))
                  (quiet_at v (pure-IsQuiet v tt) e2),
            )
