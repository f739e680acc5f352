-- ===== src/Network/Isolating.antt =====
-- `releaseVFCustom` leaves the devices of other namespaces alone, however it ends.
use rit_k8s_rdma_sriov_cni.Base.{ℕ, zero, suc, ◌+◌, ◌≡◌, ◌∙◌, String, ◌<>◌, Bool, Option, [], ◌∷◌}
use rit_k8s_rdma_sriov_cni.Go.{ok, wrapf, ◌orelse◌}
use rit_k8s_rdma_sriov_cni.Go.Laws.{orelse-ok_eq, Keeps_at}
use rit_k8s_rdma_sriov_cni.Go.Strconv.{itoa}
use rit_k8s_rdma_sriov_cni.Conf.{NetConf, is_zero, max_shared_vf}
use rit_k8s_rdma_sriov_cni.Host.{Host, Link, Ns, VfInfo}
use rit_k8s_rdma_sriov_cni.Device.{rename_link, reset_vf_vlan}
use rit_k8s_rdma_sriov_cni.Release.{detach}
use rit_k8s_rdma_sriov_cni.ReleaseCustom.{round_names, reset_found, custom_rounds, release_links}
use rit_k8s_rdma_sriov_cni.Network.{View, Devices, IsQuiet, Obeys}
use rit_k8s_rdma_sriov_cni.Network.Quiet.{
  bind-IsQuiet, if-IsQuiet, pure-IsQuiet, orelse-IsQuiet, reset_vf_vlan-IsQuiet,
  get_shared_pf-IsQuiet, sees_shared-IsQuiet,
}
use rit_k8s_rdma_sriov_cni.Network.Rename.{rename_link-denotes}
use rit_k8s_rdma_sriov_cni.Network.Rounds.{reset_found-IsQuiet}
use rit_k8s_rdma_sriov_cni.Network.Confining.{Spares}
use rit_k8s_rdma_sriov_cni.Network.Guarding.{
  Foreign, Foreign-same, Foreign-Only, was_there, Inside, Good, Guards, after-Inside, bind-Good,
  bind-Guards, quiet-Good, quiet-Guards, orelse-Guards, if-Guards, do_in_ns-Guards,
}

module _ {W : Type 0} (h : Host W) (v : View W) (law : Obeys h v) (spares : Spares h v) (pod : ℕ)
    (start : Devices) where
  abbrev Spared : W → Type 0
  Spared w = Foreign pod start (v.devices w)

  -- A device that is found in the pod's namespace was there at the start.
  found_there :
      (name : String) (l : Link) (w u : W)
      → Inside v pod start w
      → h.link_by_name name w ≡ (ok l, u)
      → (id : ℕ) × v.Denotes l id u × (start.ns_of id ≡ pod)
  found_there name l w u i e =
      let (id, denotes, placed) = law.finds name l w u e in
      (id, denotes, was_there id i.0 (placed.0 ∙ i.1))

  link_set_name-Good :
      (l : Link) (new : String) (id : ℕ) (w : W)
      → v.Denotes l id w
      → start.ns_of id ≡ pod
      → Inside v pod start w
      → Good v pod start (h.link_set_name l new w)
  link_set_name-Good l new id w denotes mine i = (
    Foreign-Only mine i.0 (spares.renaming l new id w denotes),
    λ _ e.
        (law.renames l new id w (h.link_set_name l new w).1 denotes
          (λ k. (e k, (h.link_set_name l new w).1))).stays
        ∙ i.1,
  )

  link_set_ns_fd-Good :
      (l : Link) (ns : Ns) (id : ℕ) (w : W)
      → v.Denotes l id w
      → start.ns_of id ≡ pod
      → Inside v pod start w
      → Good v pod start (h.link_set_ns_fd l ns w)
  link_set_ns_fd-Good l ns id w denotes mine i = (
    Foreign-Only mine i.0 (spares.moving l ns id w denotes),
    λ _ e.
        (law.moves l ns id w (h.link_set_ns_fd l ns w).1 denotes
          (λ k. (e k, (h.link_set_ns_fd l ns w).1))).stays
        ∙ i.1,
  )

  rename_link-Guards : (old new : String) → Guards v pod start (rename_link h.netlink old new)
  unfolding rename_link
  rename_link-Guards old new = record {
    runs = λ w i.
        bind-Good v pod start
          (h.link_by_name old orelse wrapf "failed to lookup device %q: %v" (old ∷ [])) _ w
          (Foreign-same i.0 ((law.looking old).same w).0)
          λ l u found.
            let looked = orelse-ok_eq (h.link_by_name old) _ w found in
            let (id, denotes, mine) = found_there old l w u i looked in
            link_set_name-Good l new id u denotes mine (
              after-Inside v pod start (h.link_by_name old) w
                (quiet-Good v pod start w (law.looking old) i) looked);
  }

  pub detach-Guards :
      (conf : NetConf) (if_name pf_name : String) (initns : Ns)
      → Guards v pod start (detach h conf if_name pf_name initns)
  unfolding detach
  detach-Guards conf if_name pf_name initns = record {
    runs = λ w i.
        bind-Good v pod start
          (h.link_by_name if_name orelse wrapf "failed to lookup vf device %q: %v" (if_name ∷ [])) _
          w (Foreign-same i.0 ((law.looking if_name).same w).0)
          λ l w1 found.
            let looked = orelse-ok_eq (h.link_by_name if_name) _ w found in
            let (id, denotes1, mine) = found_there if_name l w w1 i looked in
            let i1 =
              after-Inside v pod start (h.link_by_name if_name) w
                (quiet-Good v pod start w (law.looking if_name) i) looked in
            let dev_name = "dev" <> itoa l.index in
            bind-Good v pod start
              (h.link_set_down l orelse wrapf "failed to down vf device %q: %v" (if_name ∷ [])) _ w1
              (Foreign-same i1.0 ((law.setting_down l).same w1).0)
              λ _ w2 downed.
                let down = orelse-ok_eq (h.link_set_down l) _ w1 downed in
                let denotes2 =
                  Keeps_at (v.Denotes l id) (h.link_set_down l) (law.down_denotes l l id) down
                    denotes1 in
                let i2 =
                  after-Inside v pod start (h.link_set_down l) w1
                    (quiet-Good v pod start w1 (law.setting_down l) i1) down in
                bind-Good v pod start
                  (rename_link h.netlink if_name dev_name
                    orelse wrapf "failed to rename vf device %q to %q: %v"
                        (if_name ∷ dev_name ∷ []))
                  _ w2 ((rename_link-Guards if_name dev_name).runs w2 i2).0
                  λ _ w3 named.
                    let ran = orelse-ok_eq (rename_link h.netlink if_name dev_name) _ w2 named in
                    let denotes3 =
                      Keeps_at (v.Denotes l id) (rename_link h.netlink if_name dev_name)
                        (rename_link-denotes h v law l id if_name dev_name) ran denotes2 in
                    let i3 =
                      after-Inside v pod start (rename_link h.netlink if_name dev_name) w2
                        ((rename_link-Guards if_name dev_name).runs w2 i2) ran in
                    bind-Good v pod start
                      (h.link_set_ns_fd l initns
                        orelse wrapf "failed to move vf device %q to init netns: %v" (if_name ∷ []))
                      _ w3 (link_set_ns_fd-Good l initns id w3 denotes3 mine i3).0
                      λ _ w4 moved.
                        (if-Guards v pod start (is_zero conf.vlan)
                            (quiet-Guards v pod start (pure-IsQuiet v tt))
                            (orelse-Guards v pod start _ (
                              do_in_ns-Guards h v law spares pod start initns
                                (reset_vf_vlan h.netlink h.files pf_name dev_name)
                                (reset_vf_vlan-IsQuiet h v law pf_name dev_name)))).runs
                          w4
                          (after-Inside v pod start (h.link_set_ns_fd l initns) w3
                            (link_set_ns_fd-Good l initns id w3 denotes3 mine i3)
                            (orelse-ok_eq (h.link_set_ns_fd l initns) _ w3 moved));
  }

  round_names-IsQuiet :
      (pod_if_name pf_name : String) (i : ℕ) → IsQuiet v (round_names h pod_if_name pf_name i)
  unfolding round_names
  round_names-IsQuiet pod_if_name pf_name i =
      if-IsQuiet v _
        (bind-IsQuiet v (orelse-IsQuiet v _ (get_shared_pf-IsQuiet h v law pf_name))
          λ shared_pf. pure-IsQuiet v _)
        (pure-IsQuiet v _)

  custom_rounds-Guards :
      (conf : NetConf) (pod_if_name : String) (initns : Ns) (shared : Bool) (pf_name : String)
      (found : Option VfInfo) (left i : ℕ)
      → Guards v pod start (custom_rounds h conf pod_if_name initns shared pf_name found left i)
  unfolding custom_rounds
  custom_rounds-Guards conf pod_if_name initns shared pf_name found zero i =
      quiet-Guards v pod start (pure-IsQuiet v tt)
  custom_rounds-Guards conf pod_if_name initns shared pf_name found (suc left) i =
      bind-Guards v pod start (quiet-Guards v pod start (round_names-IsQuiet pod_if_name pf_name i))
        λ names. bind-Guards v pod start (detach-Guards conf names.0 names.1 initns) λ _.
          bind-Guards v pod start
            (orelse-Guards v pod start _ (
              do_in_ns-Guards h v law spares pod start initns (reset_found h pf_name found)
                (reset_found-IsQuiet h v law pf_name found)))
            λ _.
              if-Guards v pod start shared
                (custom_rounds-Guards conf pod_if_name initns shared pf_name found left (i + 1))
                (quiet-Guards v pod start (pure-IsQuiet v tt))

  pub release_links-Guards :
      (conf : NetConf) (pod_if_name : String) (initns : Ns) (found : Option VfInfo × String)
      → Guards v pod start (release_links h conf pod_if_name initns found)
  unfolding release_links
  release_links-Guards conf pod_if_name initns (found, pf_name) =
      bind-Guards v pod start
        (orelse-Guards v pod start _
          (quiet-Guards v pod start (sees_shared-IsQuiet h v law conf pod_if_name)))
        λ shared.
          bind-Guards v pod start
            (orelse-Guards v pod start _
              (custom_rounds-Guards conf pod_if_name initns shared pf_name found max_shared_vf 1))
            λ _. quiet-Guards v pod start (pure-IsQuiet v shared)
