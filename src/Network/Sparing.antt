-- ===== src/Network/Sparing.antt =====
-- `setupVF`, however it ends, in the view of the devices.
use rit_k8s_rdma_sriov_cni.Base.{
  ℕ, zero, suc, ◌≡◌, ◌≢◌, sym, ap, ◌∙◌, subst, ◌⊎◌, inl, inr, String, false, none, some, List, [],
  ◌∷◌, length, arith,
}
use rit_k8s_rdma_sriov_cni.Go.{ok, Run, pure, ◌>>=◌, ◌>>◌, ◌orelse◌}
use rit_k8s_rdma_sriov_cni.Go.Laws.{anyhow, if_false}
use rit_k8s_rdma_sriov_cni.Conf.{NetConf}
use rit_k8s_rdma_sriov_cni.Host.{Host, Ns, InterfaceRequest}
use rit_k8s_rdma_sriov_cni.Device.{get_sriov_numfs}
use rit_k8s_rdma_sriov_cni.Setup.{
  Choice, VfSetup, VfFailure, failed, passed, rounds_of, with_device, choose_vf, scan_vfs,
  check_choice, set_vlans, sort_infos, move_links, name_links, bind_dpdk, bind_netdev, setup_vf,
}
use rit_k8s_rdma_sriov_cni.Setup.Chosen.{choose_vf-after}
use rit_k8s_rdma_sriov_cni.Setup.First.{choose_vf-IsFirstUsed}
use rit_k8s_rdma_sriov_cni.Setup.Result.{check_choice-ok}
use rit_k8s_rdma_sriov_cni.Network.{
  View, Only-refl, Only-trans, Placed, Same-trans, quiet_at, Obeys,
}
use rit_k8s_rdma_sriov_cni.Network.Quiet.{orelse-IsQuiet, get_sriov_numfs-IsQuiet}
use rit_k8s_rdma_sriov_cni.Network.Choosing.{
  choose_vf-IsQuiet, check_choice-IsQuiet, set_vlans-IsQuiet,
}
use rit_k8s_rdma_sriov_cni.Network.Placing.{keeps_dpdk_mode}
use rit_k8s_rdma_sriov_cni.Network.Steps.{move_links-Moved}
use rit_k8s_rdma_sriov_cni.Network.Taken.{Lists}
use rit_k8s_rdma_sriov_cni.Network.Taking.{Settles}
use rit_k8s_rdma_sriov_cni.Network.Confining.{
  Spares, Confined, Same-Confined, name_links-Only, move_links-Confined,
}

module _ {W : Type 0} (h : Host W) (v : View W) where
  -- At most one device has changed, which the directory of one of the PF's VFs lists, and which was
  -- in the thread's namespace.
  abbrev pub ConfinedTo : String → W → W → Type 0
  ConfinedTo pf_name w u =
      (v.devices u ≡ v.devices w) ⊎ ((info : String) × Lists h pf_name info × Confined v info w u)

module _ {W : Type 0} (h : Host W) (v : View W) (law : Obeys h v) (spares : Spares h v) where
  -- The rest of `bindNetdev` once the devices are sorted
  abbrev placing : NetConf → String → String → Ns → ℕ → List String → Run W VfFailure VfSetup
  placing conf pod_if_name cid netns vf infos = move_links h conf vf netns "" infos >>= λ vf_name.
      (h.do_in_ns netns (name_links h conf pod_if_name cid vf_name vf infos)
        orelse passed (some vf) conf)
      >> pure (record { vf_idx = vf; conf = conf })

  placing-Confined :
      (conf : NetConf) (pod_if_name cid : String) (netns : Ns) (vf : ℕ) (info : String) (w : W)
      → info ≢ "eth0"
      → Confined v info w (placing conf pod_if_name cid netns vf (info ∷ []) w).1
  placing-Confined conf pod_if_name cid netns vf info w ne =
      anyhow (Confined v info w) (move_links h conf vf netns "" (info ∷ [])) _ w
        (move_links-Confined h v law spares conf vf netns info w ne)
        λ vf_name w1 moved.
          let (is_info, (id, was, put)) =
            move_links-Moved h v law conf vf netns info vf_name w w1 ne moved in
          let named = name_links h conf pod_if_name cid vf_name vf (info ∷ []) in
          let confined : Confined v info w (h.do_in_ns netns named w1).1 =
            elim (spares.doing netns named w1) [
              | inl idle ↦ inr (id, was, Only-trans put.others (Only-refl {id = id} idle))
              | inr (a, da, ca, ran) ↦
                  let here : Placed v id (v.current a) vf_name a = (
                    ap (λ d. d.ns_of id) da ∙ put.placed.0 ∙ sym ca,
                    ap (λ d. d.name_of id) da ∙ put.placed.1 ∙ sym is_info,
                  ) in
                  inr (
                    id,
                    was,
                    Only-trans put.others (
                        Only-trans (Only-refl {id = id} da) (
                          Only-trans
                            (name_links-Only h v law spares conf pod_if_name cid vf_name vf id info
                              a here)
                            (Only-refl ran))),
                  )
            ] in
          anyhow (Confined v info w) (h.do_in_ns netns named orelse passed (some vf) conf) _ w1
            confined λ _ w2 ran. subst (Confined v info w) (ap (λ r. r.1) ran) confined

  bind_netdev-Confined :
      (conf : NetConf) (pod_if_name cid : String) (netns : Ns) (c : Choice) (info : String) (w : W)
      → c.infos ≡ info ∷ []
      → info ≢ "eth0"
      → Confined v info w (bind_netdev h conf pod_if_name cid netns c w).1
  unfolding bind_netdev sort_infos
  bind_netdev-Confined conf pod_if_name cid netns c info w one ne =
      subst
        (λ l.
          Confined v info w ((sort_infos h l >>= placing conf pod_if_name cid netns c.vf_idx) w).1)
        (sym one) (placing-Confined conf pod_if_name cid netns c.vf_idx info w ne)

  module _ (settles : Settles h v) where
    -- The device of the VF that passes the two tests after the loop
    chosen_device :
        (conf : NetConf) (pf_name : String) (request : InterfaceRequest) (rounds : ℕ) (c : Choice)
        (w u x y : W)
        → choose_vf h conf pf_name request rounds w ≡ (ok c, u)
        → check_choice h pf_name c x ≡ (ok tt, y)
        → (info : String) × Lists h pf_name info × (c.infos ≡ info ∷ []) × (info ≢ "eth0")
    unfolding choose_vf scan_vfs
    chosen_device conf pf_name request zero c w u x y chose passes =
        let start : Choice = record { conf = conf; vf_idx = 0; infos = []; pci_addr = "" } in
        let none_chosen : start ≡ c = cc (ap (λ r. r.0) chose) in
        let some_there = (check_choice-ok h pf_name c x (ap (λ r. r.0) passes)).0 in
        absurd (ground (arith, some_there, ap (λ d. length d.infos) none_chosen))
    chosen_device conf pf_name request (suc k) c w u x y chose passes =
        let (info, infos, names, (first, _)) =
          choose_vf-IsFirstUsed h pf_name request conf k c w u chose in
        let (alone, other) =
          settles.one_device pf_name info c.vf_idx infos first.opened first.listed first.lists in
        (
          info,
          (
            c.vf_idx,
            first.opened,
            first.listed,
            first.lists ∙ ap (λ l. (ok (info ∷ l), first.listed)) alone,
          ),
          names ∙ ap (λ l. info ∷ l) alone,
          other,
        )

    -- A `setupVF` outside DPDK mode, whether it succeeds, fails, panics or ends the process: no device
    -- has changed its place or name, or one has, which was in the thread's namespace under a name that
    -- the directory of one of the PF's VFs lists. It is assumed that the host obeys the view, that a
    -- failed move or change of name changes no other device and a failed `Do` has run its function in
    -- the namespace or not at all, and that the directory of a VF lists no device or one, not called
    -- eth0.
    pub setup_vf-ConfinedTo :
        (conf : NetConf) (pf_name pod_if_name cid : String) (netns : Ns)
        (request : InterfaceRequest) (w : W)
        → conf.dpdk_mode ≡ false
        → ConfinedTo h v pf_name w (setup_vf h conf pf_name pod_if_name cid netns request w).1
    unfolding setup_vf
    setup_vf-ConfinedTo conf pf_name pod_if_name cid netns request w netdev =
        anyhow (ConfinedTo h v pf_name w)
          (h.link_by_name pf_name
            orelse failed none conf "failed to lookup master %q: %v" (pf_name ∷ []))
          _ w (inl ((law.looking pf_name).same w).0)
          λ master w1 found.
            let same1 = quiet_at v (orelse-IsQuiet v _ (law.looking pf_name)) found in
            anyhow (ConfinedTo h v pf_name w)
              (get_sriov_numfs h.files pf_name orelse passed none conf) _ w1
              (inl (((get_sriov_numfs-IsQuiet h v law pf_name).same w1).0 ∙ same1.0))
              λ total w2 counted.
                let same2 = Same-trans v same1 (
                  quiet_at v (orelse-IsQuiet v _ (get_sriov_numfs-IsQuiet h v law pf_name))
                    counted) in
                anyhow (ConfinedTo h v pf_name w)
                  (choose_vf h conf pf_name request (rounds_of total)) _ w2
                  (inl (
                    ((choose_vf-IsQuiet h v law conf pf_name request (rounds_of total)).same w2).0
                    ∙ same2.0))
                  λ c w3 chose.
                    let same3 = Same-trans v same2 (
                      quiet_at v (choose_vf-IsQuiet h v law conf pf_name request (rounds_of total))
                        chose) in
                    let mode =
                      keeps_dpdk_mode h v law conf (rounds_of total) c (
                        choose_vf-after h conf pf_name request (rounds_of total) w2
                          (ap (λ r. r.0) chose))
                      ∙ netdev in
                    anyhow (ConfinedTo h v pf_name w) (check_choice h pf_name c) _ w3
                      (inl (((check_choice-IsQuiet h v law pf_name c).same w3).0 ∙ same3.0))
                      λ _ w4 passes.
                        let same4 =
                          Same-trans v same3
                            (quiet_at v (check_choice-IsQuiet h v law pf_name c) passes) in
                        anyhow (ConfinedTo h v pf_name w) (set_vlans h master pf_name c) _ w4
                          (inl (((set_vlans-IsQuiet h v law master pf_name c).same w4).0 ∙ same4.0))
                          λ _ w5 set.
                            let same5 =
                              Same-trans v same4
                                (quiet_at v (set_vlans-IsQuiet h v law master pf_name c) set) in
                            let (info, listed, one, other) =
                              chosen_device conf pf_name request (rounds_of total) c w2 w3 w3 w4
                                chose passes in
                            let conf' = with_device c.conf c.pci_addr pod_if_name c.vf_idx in
                            inr (
                              info,
                              listed,
                              Same-Confined v same5 (
                                  subst (λ r. Confined v info w5 r.1)
                                    (sym (
                                      if_false c.conf.dpdk_mode (bind_dpdk h conf' cid c)
                                        (bind_netdev h conf' pod_if_name cid netns c) w5 mode))
                                    (bind_netdev-Confined conf' pod_if_name cid netns c info w5 one
                                      other)),
                            )
