-- ===== src/Network/Emptying.antt =====
-- The loop of `cmdDel` over the interfaces of the pod, in the view of the devices.
use mathlib.Core.List.{Mem, Nodup, Nodup-cons, mem-cons_self, mem-cons_of_mem, Forall₂}
use rit_k8s_rdma_sriov_cni.Base.{ℕ, ◌≡◌, ◌≢◌, refl, sym, ◌∙◌, subst, ◌<>◌, false, List, [], ◌∷◌}
use rit_k8s_rdma_sriov_cni.Go.{ok, attempt, Error}
use rit_k8s_rdma_sriov_cni.Go.Laws.{bind_eq, attempt_eq}
use rit_k8s_rdma_sriov_cni.Go.Strconv.{itoa}
use rit_k8s_rdma_sriov_cni.Conf.{NetConf}
use rit_k8s_rdma_sriov_cni.Host.{Host, Ns, NetInterface, PfInfo}
use rit_k8s_rdma_sriov_cni.Scratch.{get_net_conf}
use rit_k8s_rdma_sriov_cni.ReleaseCustom.{release_vf_custom}
use rit_k8s_rdma_sriov_cni.Add.Interfaces.{CmdArgs}
use rit_k8s_rdma_sriov_cni.Del.{after_release}
use rit_k8s_rdma_sriov_cni.Del.Filtering.{release_each}
use rit_k8s_rdma_sriov_cni.Network.{View, Only, Placed, Obeys}
use rit_k8s_rdma_sriov_cni.Network.Detaching.{release_vf_custom-Left}

module _ {W : Type 0} (h : Host W) (v : View W) (args : CmdArgs) (pfs : List PfInfo) (pod : ℕ) where
  -- A release of `intf` that succeeds: it does not take the interface for shared, the saved
  -- configuration is not in DPDK mode, and the thread is where it was.
  pub record IsFreed (n : NetConf) (intf : NetInterface) (w u : W) : Type 0 where
    pub netns : Ns
    pub saved : NetConf
    pub opened : W
    pub loaded : W
    pub opens : h.get_ns args.netns w ≡ (ok netns, opened)
    pub in_pod : v.space netns ≡ pod
    pub loads :
        get_net_conf h.files h.json args.container_id intf.name n.cni_dir opened
        ≡ (ok saved, loaded)
    pub netdev : saved.dpdk_mode ≡ false
    pub releases : release_vf_custom h n intf args.container_id args.netns pfs w ≡ (ok false, u)
    pub back : v.current u ≡ v.current w

  -- One interface after the other
  pub data Frees : NetConf → List NetInterface → W → W → Type 0 where
    all_freed : {n : NetConf} {w : W} → Frees n [] w w
    frees :
        {n : NetConf} {intf : NetInterface} {rest : List NetInterface} {w x u : W}
        → IsFreed n intf w x
        → Frees (record n { shared_vf = false }) rest x u
        → Frees n (intf ∷ rest) w u

module _ {W : Type 0} (v : View W) (pod : ℕ) where
  -- The devices of the interfaces, in the pod's namespace
  abbrev pub Hold : List NetInterface → List ℕ → W → Type 0
  Hold interfaces ids w = Forall₂ (λ intf id. Placed v id pod intf.name w) interfaces ids

  -- Device `id` is in namespace `home` under a name of `dev` and a number.
  abbrev pub IsGivenBack : ℕ → W → ℕ → Type 0
  IsGivenBack home w id = (index : ℕ) × Placed v id home ("dev" <> itoa index) w

  -- What the loop does to the devices of the interfaces and to the others
  pub record Empties (interfaces : List NetInterface) (ids : List ℕ) (w u : W) : Type 0 where
    pub given_back : Forall₂ (λ intf. IsGivenBack (v.current w) u) interfaces ids
    pub others :
        (j : ℕ)
        → ¬ Mem j ids
        → ((v.devices u).ns_of j ≡ (v.devices w).ns_of j)
          × ((v.devices u).name_of j ≡ (v.devices w).name_of j)
    pub stays : v.current u ≡ v.current w

module _ {W : Type 0} (h : Host W) (v : View W) (law : Obeys h v) (args : CmdArgs)
    (pfs : List PfInfo) (pod : ℕ) where
  not_first : {j id : ℕ} {ids : List ℕ} → ¬ Mem j (id ∷ ids) → j ≢ id
  not_first {j} {id} {ids} out e = out (subst (λ k. Mem j (k ∷ ids)) e mem-cons_self)

  not_rest : {j id : ℕ} {ids : List ℕ} → ¬ Mem j (id ∷ ids) → ¬ Mem j ids
  not_rest {j} {id} {ids} out m = out (mem-cons_of_mem id m)

  still_held :
      {id : ℕ} {w x : W} {interfaces : List NetInterface} {ids : List ℕ}
      → Only id (v.devices w) (v.devices x)
      → ¬ Mem id ids
      → Hold v pod interfaces ids w
      → Hold v pod interfaces ids x
  still_held only fresh Forall₂.nil = Forall₂.nil
  still_held only fresh (Forall₂.cons {b = j} p ps) =
      let (there, called) = only j (λ e. not_first fresh (sym e)) in
      Forall₂.cons (there ∙ p.0, called ∙ p.1) (still_held only (not_rest fresh) ps)

  pub Frees-Empties :
      {n : NetConf} {interfaces : List NetInterface} {ids : List ℕ} {w u : W}
      → Frees h v args pfs pod n interfaces w u
      → Hold v pod interfaces ids w
      → Nodup ids
      → Empties v pod interfaces ids w u
  Frees-Empties all_freed Forall₂.nil distinct = record {
    given_back = Forall₂.nil;
    others = λ j out. (refl, refl);
    stays = refl;
  }
  Frees-Empties {n} {w = w} {u} (frees {intf = intf} {rest} {x = x} f more)
        (Forall₂.cons {b = id} {l₂ = ids} p ps) distinct =
      let (fresh, apart) = Nodup-cons.0 distinct in
      let ((index, placed), only) =
        release_vf_custom-Left h v law n f.saved intf args.container_id args.netns pfs f.netns id w
          f.opened f.loaded x f.opens f.loads f.netdev (p.0 ∙ sym f.in_pod, p.1) f.releases in
      let later = Frees-Empties more (still_held only fresh ps) apart in
      let (there, called) = later.others id fresh in
      record {
        given_back =
            Forall₂.cons (index, (there ∙ placed.0, called ∙ placed.1))
              (subst (λ c. Forall₂ (λ intf. IsGivenBack v pod c u) rest ids) f.back
                later.given_back);
        others = λ j out.
            let (n, k) = later.others j (not_rest out) in
            let (n', k') = only j (not_first out) in (n ∙ n', k ∙ k');
        stays = later.stays ∙ f.back;
      }

  pub Frees-release_each :
      {n : NetConf} {interfaces : List NetInterface} {w u : W}
      → Frees h v args pfs pod n interfaces w u
      → release_each h args pfs n interfaces w ≡ (ok tt, u)
  unfolding release_each after_release
  Frees-release_each all_freed = refl
  Frees-release_each {n} {w = w} (frees {intf = intf} f more) =
      bind_eq (attempt (release_vf_custom h n intf args.container_id args.netns pfs)) _ w (
        attempt_eq {F = Error} (release_vf_custom h n intf args.container_id args.netns pfs) w
          f.releases)
      ∙ Frees-release_each more
