-- ===== src/Network/Placing.antt =====
-- `setupVF` in the view of the devices: where the device of a VF is put.
use rit_k8s_rdma_sriov_cni.Base.{
  inl, inr, ℕ, String, ◌≡◌, ◌≢◌, refl, sym, ap, ◌∙◌, subst, false, some, none, [], ◌∷◌,
}
use rit_k8s_rdma_sriov_cni.Go.{ok, ◌orelse◌}
use rit_k8s_rdma_sriov_cni.Go.Strconv.{ℤ}
use rit_k8s_rdma_sriov_cni.Go.Laws.{by_parts_eq, orelse-ok_eq, if_false}
use rit_k8s_rdma_sriov_cni.Conf.{NetConf}
use rit_k8s_rdma_sriov_cni.Setup.Chosen.{Outcomes, choose_vf-after}
use rit_k8s_rdma_sriov_cni.Network.Choosing.{
  choose_vf-IsQuiet, check_choice-IsQuiet, set_vlans-IsQuiet,
}
use rit_k8s_rdma_sriov_cni.Host.{Host, Ns, InterfaceRequest}
use rit_k8s_rdma_sriov_cni.Device.{get_sriov_numfs}
use rit_k8s_rdma_sriov_cni.Setup.{
  setup_vf, choose_vf, check_choice, set_vlans, rounds_of, with_device, VfSetup, Choice, failed,
  passed, sort_infos, move_links, name_links, bind_netdev,
}
use rit_k8s_rdma_sriov_cni.Network.{View, Moved, Same, Same-trans, Same-Puts, quiet_at, Obeys}
use rit_k8s_rdma_sriov_cni.Network.Quiet.{get_sriov_numfs-IsQuiet, orelse-IsQuiet}
use rit_k8s_rdma_sriov_cni.Network.Steps.{placed-Moved}

module _ {W : Type 0} (h : Host W) (v : View W) (law : Obeys h v) where
  sort_infos-one : (info : String) (w : W) → sort_infos h (info ∷ []) w ≡ (ok (info ∷ []), w)
  unfolding sort_infos
  sort_infos-one info w = refl

  -- If `setupVF` binds the one device of a VF to a pod, then the device, which was in the thread's
  -- namespace under the name that the directory gave, is in the pod's namespace under the pod's
  -- interface name. No other device has changed, and the thread is in the namespace in which it was.
  -- It is assumed that the host obeys the view, and that the device is not called eth0.
  pub bind_netdev-Moved :
      (conf : NetConf) (pod_if_name cid : String) (netns : Ns) (c : Choice) (info : String)
      (w u : W) (s : VfSetup)
      → c.infos ≡ info ∷ []
      → info ≢ "eth0"
      → bind_netdev h conf pod_if_name cid netns c w ≡ (ok s, u)
      → Moved v info (v.space netns) pod_if_name w u
  unfolding bind_netdev
  bind_netdev-Moved conf pod_if_name cid netns c info w u s one ne e =
      by_parts_eq (sort_infos h c.infos) _ w e λ infos w1 sorted e1.
        by_parts_eq (move_links h conf c.vf_idx netns "" infos) _ w1 e1 λ vf_name w2 moved e2.
          by_parts_eq
            (h.do_in_ns netns (name_links h conf pod_if_name cid vf_name c.vf_idx infos)
              orelse passed (some c.vf_idx) conf)
            _ w2 e2
            λ _ w3 named e3.
              let same = sym (ap (λ l. sort_infos h l w) one ∙ sort_infos-one info w) ∙ sorted in
              let infos_one : info ∷ [] ≡ infos = cc (ap (λ r. r.0) same) in
              let moved' =
                subst (λ x. move_links h conf c.vf_idx netns "" (info ∷ []) x ≡ (ok vf_name, w2))
                  (sym (ap (λ r. r.1) same))
                  (subst (λ l. move_links h conf c.vf_idx netns "" l w1 ≡ (ok vf_name, w2))
                    (sym infos_one) moved) in
              let named' =
                subst
                  (λ l.
                    h.do_in_ns netns (name_links h conf pod_if_name cid vf_name c.vf_idx l) w2
                    ≡ (ok tt, w3))
                  (sym infos_one)
                  (orelse-ok_eq
                    (h.do_in_ns netns (name_links h conf pod_if_name cid vf_name c.vf_idx infos))
                    (passed (some c.vf_idx) conf) w2 named) in
              subst (Moved v info (v.space netns) pod_if_name w) (ap (λ r. r.1) e3) (
                placed-Moved h v law conf pod_if_name cid vf_name netns c.vf_idx info w w2 w3 ne
                  moved' named')

  Same-Moved :
      (info name : String) (ns : ℕ) (w w' u : W)
      → Same v w w'
      → Moved v info ns name w' u
      → Moved v info ns name w u
  Same-Moved info name ns w w' u same (id, was, put) = (
    id,
    (
      sym (ap (λ d. d.ns_of id) same.0) ∙ was.0 ∙ same.1,
      sym (ap (λ d. d.name_of id) same.0) ∙ was.1,
    ),
    Same-Puts v same put,
  )

  pub keeps_dpdk_mode :
      (before : NetConf) (total : ℕ) (c : Choice)
      → Outcomes before total c
      → c.conf.dpdk_mode ≡ before.dpdk_mode
  keeps_dpdk_mode before total c (inl idle) = ap (λ n. n.dpdk_mode) idle.unchanged
  keeps_dpdk_mode before total c (inr taken) = taken.settings.dpdk_mode

  pub setup_vf-chosen :
      (conf : NetConf) (if_name pod_if_name cid : String) (netns : Ns) (request : InterfaceRequest)
      (w u : W) (s : VfSetup)
      → conf.dpdk_mode ≡ false
      → setup_vf h conf if_name pod_if_name cid netns request w ≡ (ok s, u)
      → (c : Choice) × ((info : String)
          → c.infos ≡ info ∷ []
          → info ≢ "eth0"
          → Moved v info (v.space netns) pod_if_name w u)
        × ((total : ℤ) × (x : W) × (y : W) × (get_sriov_numfs h.files if_name
                (h.link_by_name if_name w).1
              ≡ (ok total, x))
            × (choose_vf h conf if_name request (rounds_of total) x ≡ (ok c, y)))
  unfolding setup_vf
  setup_vf-chosen conf if_name pod_if_name cid netns request w u s netdev e =
      by_parts_eq
        (h.link_by_name if_name
          orelse failed none conf "failed to lookup master %q: %v" (if_name ∷ []))
        _ w e
        λ master w1 found e1.
          by_parts_eq (get_sriov_numfs h.files if_name orelse passed none conf) _ w1 e1
            λ total w2 counted e2.
              by_parts_eq (choose_vf h conf if_name request (rounds_of total)) _ w2 e2
                λ c w3 chose e3. by_parts_eq (check_choice h if_name c) _ w3 e3 λ _ w4 accepted e4.
                  by_parts_eq (set_vlans h master if_name c) _ w4 e4 λ _ w5 set e5.
                    let before : Same v w w5 =
                      Same-trans v (quiet_at v (orelse-IsQuiet v _ (law.looking if_name)) found) (
                        Same-trans v
                          (quiet_at v (orelse-IsQuiet v _ (get_sriov_numfs-IsQuiet h v law if_name))
                            counted)
                          (Same-trans v
                            (quiet_at v
                              (choose_vf-IsQuiet h v law conf if_name request (rounds_of total))
                              chose)
                            (Same-trans v
                              (quiet_at v (check_choice-IsQuiet h v law if_name c) accepted)
                              (quiet_at v (set_vlans-IsQuiet h v law master if_name c) set)))) in
                    (
                      c,
                      λ info one ne. Same-Moved info pod_if_name (v.space netns) w w5 u before (
                          bind_netdev-Moved (with_device c.conf c.pci_addr pod_if_name c.vf_idx)
                            pod_if_name cid netns c info w5 u s one ne
                            (sym (
                                if_false c.conf.dpdk_mode _ _ w5 (
                                  keeps_dpdk_mode conf (rounds_of total) c (
                                    choose_vf-after h conf if_name request (rounds_of total) w2
                                      (ap (λ r. r.0) chose))
                                  ∙ netdev))
                              ∙ e5)),
                      (
                        total,
                        w2,
                        w3,
                        subst (λ x. get_sriov_numfs h.files if_name x ≡ (ok total, w2))
                            (sym (ap (λ r. r.1) found))
                            (orelse-ok_eq (get_sriov_numfs h.files if_name) (passed none conf) w1
                              counted),
                        chose,
                      ),
                    )

  -- A `setupVF` that succeeds outside DPDK mode, where the VF that the loop chose has one device that
  -- is not called eth0: that device, which was in the thread's namespace under the name that the
  -- directory gave, is in the pod's namespace under the pod's interface name. No other device has
  -- changed, and the thread is in the namespace in which it was. It is assumed that the host obeys
  -- the view.
  pub setup_vf-Moved :
      (conf : NetConf) (if_name pod_if_name cid : String) (netns : Ns) (request : InterfaceRequest)
      (total : ℤ) (c : Choice) (info : String) (w x y u : W) (s : VfSetup)
      → conf.dpdk_mode ≡ false
      → get_sriov_numfs h.files if_name (h.link_by_name if_name w).1 ≡ (ok total, x)
      → choose_vf h conf if_name request (rounds_of total) x ≡ (ok c, y)
      → c.infos ≡ info ∷ []
      → info ≢ "eth0"
      → setup_vf h conf if_name pod_if_name cid netns request w ≡ (ok s, u)
      → Moved v info (v.space netns) pod_if_name w u
  setup_vf-Moved conf if_name pod_if_name cid netns request total c info w x y u s netdev counted
        chose one ne e =
      let (c', moved, (total', x', y', counted', chose')) =
        setup_vf-chosen conf if_name pod_if_name cid netns request w u s netdev e in
      let totals : total' ≡ total = cc (ap (λ r. r.0) (sym counted' ∙ counted)) in
      let chose_both =
        sym chose'
        ∙ ap (λ n. choose_vf h conf if_name request (rounds_of n) x') totals
        ∙ ap (choose_vf h conf if_name request (rounds_of total))
            (ap (λ r. r.1) (sym counted' ∙ counted))
        ∙ chose in
      let choices : c' ≡ c = cc (ap (λ r. r.0) chose_both) in
      moved info (ap (λ d. d.infos) choices ∙ one) ne
