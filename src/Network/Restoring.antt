-- ===== src/Network/Restoring.antt =====
-- The loop of `cmdAdd` over the placements, and later the loop of `cmdDel` over the pod's interfaces,
-- in the view of the devices.
use mathlib.Core.Logic.{∥∥₁_elim}
use mathlib.Core.List.{Mem, Memᴰ, Permᴰ, dec_mem, Forall₂}
use mathlib.Core.List.Perm
use native.Mathlib.Decide.{ℕ_discrete}
use native.Mathlib.Nat.{ℕ_set}
use rit_k8s_rdma_sriov_cni.Base.{
  ℕ, ◌≡◌, ◌≢◌, sym, ap, ◌∙◌, String, ◌<>◌, List, map, permuted, unmapped, looked_up, mapped,
}
use rit_k8s_rdma_sriov_cni.Go.{ok}
use rit_k8s_rdma_sriov_cni.Go.Strconv.{itoa}
use rit_k8s_rdma_sriov_cni.Conf.{NetConf}
use rit_k8s_rdma_sriov_cni.Host.{Host, Ns, NetInterface, InterfaceRequest, PfInfo}
use rit_k8s_rdma_sriov_cni.Add.Interfaces.{CmdArgs, Progress, add_interfaces}
use rit_k8s_rdma_sriov_cni.Add.Listed.{names_from}
use rit_k8s_rdma_sriov_cni.Del.{release_interfaces}
use rit_k8s_rdma_sriov_cni.Del.Filtering.{pod_interfaces, release_interfaces-pod_interfaces}
use rit_k8s_rdma_sriov_cni.Network.{View, Placed, Same, Obeys}
use rit_k8s_rdma_sriov_cni.Network.Taken.{AllTaken, none_taken, one_taken}
use rit_k8s_rdma_sriov_cni.Network.Taking.{Settles, add_interfaces-Populates}
use rit_k8s_rdma_sriov_cni.Network.Emptying.{Frees, Empties, Frees-Empties, Frees-release_each}

-- The names that an ADD gives to the interfaces
abbrev pub given_names : List ℕ → List String
given_names placements = map (λ r. r.name) (names_from 0 placements)

module _ {W : Type 0} (v : View W) where
  -- Every device is in the namespace in which it was; those that were `taken` have a name of `dev`
  -- and a number, and the others their name.
  pub record Restores (w u : W) : Type 0 where
    pub taken : List ℕ
    pub everywhere : (j : ℕ) → (v.devices u).ns_of j ≡ (v.devices w).ns_of j
    pub renamed :
        (j : ℕ) → Memᴰ j taken → (index : ℕ) × ((v.devices u).name_of j ≡ "dev" <> itoa index)
    pub named : (j : ℕ) → ¬ Mem j taken → (v.devices u).name_of j ≡ (v.devices w).name_of j

module _ {W : Type 0} (h : Host W) (v : View W) (law : Obeys h v) (settles : Settles h v)
    (args : CmdArgs) (netns : Ns) (requests : List InterfaceRequest) (pfs : List PfInfo) where
  -- A device of the ADD: where it was at `w`, and its place and name at `u`
  abbrev WasTaken : W → W → String → ℕ → Type 0
  WasTaken w u name id = ((v.devices w).ns_of id ≡ v.current w) × Placed v id (v.space netns) name u

  AllTaken-WasTaken :
      {placements ids : List ℕ} {i : ℕ} {w u : W}
      → AllTaken h v netns pfs placements i ids w u
      → Forall₂ (WasTaken w u) (map (λ r. r.name) (names_from i placements)) ids
  AllTaken-WasTaken none_taken = Forall₂.nil
  AllTaken-WasTaken (one_taken t more) = Forall₂.cons (t.before.0, t.after) (AllTaken-WasTaken more)

  -- What the two loops do together, once the devices stand in the order of the release
  restored :
      (interfaces : List NetInterface) (ids : List ℕ) (w u w' u' : W)
      → ((j : ℕ)
          → ¬ Mem j ids
          → ((v.devices u).ns_of j ≡ (v.devices w).ns_of j)
            × ((v.devices u).name_of j ≡ (v.devices w).name_of j))
      → v.current u ≡ v.current w
      → Same v u w'
      → Forall₂ (λ intf id. WasTaken w u intf.name id) interfaces ids
      → Empties v (v.space netns) interfaces ids w' u'
      → Restores v w u'
  restored interfaces ids w u w' u' others stays same was empties = record {
    taken = ids;
    everywhere = λ j. elim (dec_mem ℕ_discrete j ids) [
      | yes m ↦ ∥∥₁_elim m (ℕ_set _ _) λ d.
          let (_, (home, _)) = looked_up was d in
          let (_, (_, (ns, _))) = looked_up empties.given_back d in ns ∙ same.1 ∙ stays ∙ sym home
      | no out ↦ (empties.others j out).0 ∙ ap (λ d. d.ns_of j) same.0 ∙ (others j out).0
    ];
    renamed = λ j m. let (_, (index, (_, name))) = looked_up empties.given_back m in (index, name);
    named = λ j out. (empties.others j out).1 ∙ ap (λ d. d.name_of j) same.0 ∙ (others j out).1;
  }

  -- A loop of an ADD that succeeds, and later a loop of a DEL over the interfaces of the pod's
  -- namespace, in a thread of the same namespace, among which those called `eth` and a number are the
  -- ones that the ADD added, in any order, and whose release succeeds for each, without taking it for
  -- shared and outside DPDK mode: then the loop of the DEL succeeds, every device of the host is in
  -- the namespace in which it was before the ADD, and each has its old name or one of `dev` and a
  -- number. It is assumed that the host obeys the view, that the thread is not in the pod's
  -- namespace, that the directory of a VF lists no device or one, not called eth0, that the IPAM
  -- plugin and the configuration of an interface change no place or name, that nothing does so between
  -- the two loops, and that each release leaves the thread in its namespace.
  pub release_interfaces-add_interfaces :
      (placements : List ℕ) (p q : Progress) (pfs' : List PfInfo) (n : NetConf)
      (interfaces : List NetInterface) (w u w' u' : W)
      → v.space netns ≢ v.current w
      → add_interfaces h args netns requests pfs placements 0 p w ≡ (ok q, u)
      → Same v u w'
      → Permᴰ (given_names placements) (map (λ intf. intf.name) (pod_interfaces interfaces))
      → Frees h v args pfs' (v.space netns) n (pod_interfaces interfaces) w' u'
      → (release_interfaces h n args pfs' interfaces w' ≡ (ok tt, u')) × Restores v w u'
  release_interfaces-add_interfaces placements p q pfs' n interfaces w u w' u' apart added same
        names freed =
      let populates =
        add_interfaces-Populates h v law settles args netns requests pfs placements 0 p q w u apart
          added in
      let (ids, listed, order) = permuted names (AllTaken-WasTaken populates.all_taken) in
      let was = unmapped (λ intf. intf.name) (pod_interfaces interfaces) listed in
      let held =
        mapped
          (λ intf id t.
            (ap (λ d. d.ns_of id) same.0 ∙ t.1.0, ap (λ d. d.name_of id) same.0 ∙ t.1.1))
          was in
      (
        release_interfaces-pod_interfaces h args pfs' n interfaces w'
            ∙ Frees-release_each h v law args pfs' (v.space netns) freed,
        restored (pod_interfaces interfaces) ids w u w' u'
            (λ j out. populates.others j (λ m. out ((Perm.mem_iff order).0 m))) populates.stays same
            was
            (Frees-Empties h v law args pfs' (v.space netns) freed held
              (Perm.nodup order populates.distinct)),
      )
