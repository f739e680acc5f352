-- ===== src/Network/Confining.antt =====
-- The steps of `setupVF` that move a VF's device and name it, however they end, in the view of the
-- devices.
use rit_k8s_rdma_sriov_cni.Base.{
  ℕ, String, ◌≡◌, ◌≢◌, sym, ap, ◌∙◌, subst, ◌⊎◌, inl, inr, some, [], ◌∷◌,
}
use rit_k8s_rdma_sriov_cni.Go.{Error, wrapf, Run, ◌>>=◌, ◌orelse◌}
use rit_k8s_rdma_sriov_cni.Go.Strconv.{itoa}
use rit_k8s_rdma_sriov_cni.Go.Laws.{anyhow, orelse-ok_eq, orelse_eq}
use rit_k8s_rdma_sriov_cni.Conf.{NetConf}
use rit_k8s_rdma_sriov_cni.Host.{Host, Link, Ns}
use rit_k8s_rdma_sriov_cni.Device.{rename_link}
use rit_k8s_rdma_sriov_cni.Setup.{
  failed, passed, away_from_eth0, move_links, rename_links, name_links,
}
use rit_k8s_rdma_sriov_cni.Network.{
  View, Placed, Only, Only-refl, Only-trans, Same, IsQuiet, quiet_at, Obeys,
}
use rit_k8s_rdma_sriov_cni.Network.Quiet.{
  if-IsQuiet, bind-IsQuiet, orelse-IsQuiet, pure-IsQuiet, set_up_link-IsQuiet,
  save_net_conf-IsQuiet,
}
use rit_k8s_rdma_sriov_cni.Network.Rename.{finds_only}
use rit_k8s_rdma_sriov_cni.Network.Steps.{about_to_move, away_from_eth0-other}

-- What is assumed of the calls that change a device, however they end: only the device of the handle
-- changes. `Do` runs the function in the namespace or does not run it.
pub record Spares {W : Type 0} (h : Host W) (v : View W) : Type 0 where
  pub renaming :
      (l : Link) (new : String) (id : ℕ) (w : W)
      → v.Denotes l id w
      → Only id (v.devices w) (v.devices (h.link_set_name l new w).1)
  pub moving :
      (l : Link) (ns : Ns) (id : ℕ) (w : W)
      → v.Denotes l id w
      → Only id (v.devices w) (v.devices (h.link_set_ns_fd l ns w).1)
  pub doing :
      (ns : Ns) (m : Run W Error Unit) (w : W)
      → (v.devices (h.do_in_ns ns m w).1 ≡ v.devices w)
        ⊎ ((a : W) × (v.devices a ≡ v.devices w)
            × (v.current a ≡ v.space ns)
            × (v.devices (h.do_in_ns ns m w).1 ≡ v.devices (m a).1))

module _ {W : Type 0} (v : View W) where
  -- At most one device has changed, and that was in the thread's namespace under name `info`.
  abbrev pub Confined : String → W → W → Type 0
  Confined info w u =
      (v.devices u ≡ v.devices w)
      ⊎ ((id : ℕ) × Placed v id (v.current w) info w × Only id (v.devices w) (v.devices u))

  pub Same-Confined :
      {info : String} {w x u : W} → Same v w x → Confined info x u → Confined info w u
  Same-Confined s (inl e) = inl (e ∙ s.0)
  Same-Confined s (inr (id, here, only)) = inr (
    id,
    (sym (ap (λ d. d.ns_of id) s.0) ∙ here.0 ∙ s.1, sym (ap (λ d. d.name_of id) s.0) ∙ here.1),
    Only-trans (Only-refl {id = id} s.0) only,
  )

module _ {W : Type 0} (h : Host W) (v : View W) (law : Obeys h v) (spares : Spares h v) where
  rename_link-Only :
      (old new : String) (id : ℕ) (w : W)
      → Placed v id (v.current w) old w
      → Only id (v.devices w) (v.devices (rename_link h.netlink old new w).1)
  unfolding rename_link
  rename_link-Only old new id w here =
      anyhow (λ u. Only id (v.devices w) (v.devices u))
        (h.link_by_name old orelse wrapf "failed to lookup device %q: %v" (old ∷ [])) _ w
        (Only-refl ((law.looking old).same w).0)
        λ l x found.
          let looked = orelse-ok_eq (h.link_by_name old) _ w found in
          Only-trans (Only-refl {id = id} (quiet_at v (law.looking old) looked).0)
            (spares.renaming l new id x (finds_only h v law old id l w x here looked))

  -- A part that spares the other devices, and a quiet rest
  then_quiet :
      {E A B : Type 0} (id : ℕ) (w0 : W) (m : Run W E A) (f : A → Run W E B) (w : W)
      → Only id (v.devices w0) (v.devices (m w).1)
      → ((a : A) → IsQuiet v (f a))
      → Only id (v.devices w0) (v.devices ((m >>= f) w).1)
  then_quiet id w0 m f w only q =
      anyhow (λ u. Only id (v.devices w0) (v.devices u)) m f w only
        λ a u ran.
          Only-trans (subst (λ x. Only id (v.devices w0) (v.devices x)) (ap (λ r. r.1) ran) only)
            (Only-refl ((q a).same u).0)

  pub name_links-Only :
      (conf : NetConf) (pod_if_name cid vf_name : String) (vf id : ℕ) (info : String) (w : W)
      → Placed v id (v.current w) vf_name w
      → Only id
          (v.devices w)
          (v.devices (name_links h conf pod_if_name cid vf_name vf (info ∷ []) w).1)
  unfolding name_links rename_links
  name_links-Only conf pod_if_name cid vf_name vf id info w here =
      then_quiet id w
        (rename_links h conf.l2_mode pod_if_name vf_name vf 1 (info ∷ []) 1 pod_if_name) _ w
        (then_quiet id w
          (rename_link h.netlink vf_name pod_if_name
            orelse wrapf "failed to rename %d vf of the device %q to %q: %v"
                (itoa vf ∷ info ∷ pod_if_name ∷ []))
          _ w (rename_link-Only vf_name pod_if_name id w here)
          λ _.
            bind-IsQuiet v
              (if-IsQuiet v conf.l2_mode
                (orelse-IsQuiet v _ (set_up_link-IsQuiet h v law pod_if_name)) (pure-IsQuiet v tt))
              λ _. pure-IsQuiet v _)
        λ name. orelse-IsQuiet v _ (save_net_conf-IsQuiet h v law cid conf.cni_dir conf)

  pub move_links-Confined :
      (conf : NetConf) (vf : ℕ) (netns : Ns) (info : String) (w : W)
      → info ≢ "eth0"
      → Confined v info w (move_links h conf vf netns "" (info ∷ []) w).1
  unfolding move_links
  move_links-Confined conf vf netns info w ne =
      anyhow (Confined v info w)
        (h.link_by_name info
          orelse failed (some vf) conf "failed to lookup vf device %q: %v" (info ∷ []))
        _ w (inl ((law.looking info).same w).0)
        λ l w1 found.
          let looked = orelse-ok_eq (h.link_by_name info) _ w found in
          let same1 = quiet_at v (law.looking info) looked in
          anyhow (Confined v info w) (away_from_eth0 h l info orelse passed (some vf) conf) _ w1
            (inl (ap (λ r. v.devices r.1) (away_from_eth0-other h v law l info w1 ne) ∙ same1.0))
            λ name w2 away.
              let same2 : Same v w w2 =
                subst (Same v w)
                  (ap (λ r. r.1)
                    (sym (
                        orelse_eq (away_from_eth0 h l info) (passed (some vf) conf) w1
                          (away_from_eth0-other h v law l info w1 ne))
                      ∙ away))
                  same1 in
              anyhow (Confined v info w)
                (h.link_set_up l
                  orelse failed (some vf) conf "failed to setup vf %d device: %v" (itoa vf ∷ []))
                _ w2 (inl (((law.setting_up l).same w2).0 ∙ same2.0))
                λ _ w3 upped.
                  let (id, here, denotes, same3, _) =
                    about_to_move h v law conf vf info name l w w1 w2 w3 ne looked away
                      (orelse-ok_eq (h.link_set_up l) _ w2 upped) in
                  let only =
                    Only-trans (Only-refl {id = id} same3.0)
                      (spares.moving l netns id w3 denotes) in
                  anyhow (Confined v info w)
                    (h.link_set_ns_fd l netns
                      orelse failed (some vf) conf "failed to move vf %d to netns: %v"
                          (itoa vf ∷ []))
                    _ w3 (inr (id, here, only))
                    λ _ w4 moved.
                      subst (Confined v info w) (ap (λ r. r.1) moved) (inr (id, here, only))
