-- ===== src/Add/Success/Enough.antt =====
-- What suffices for the loop of an ADD to succeed.
use rit_k8s_rdma_sriov_cni.Base.{
  ℕ, suc, ◌≡◌, refl, ap, ◌∙◌, subst, ◌↔◌, String, ◌<>◌, false, ◌||◌, Option, some, List, [], ◌∷◌,
  get_elem?,
}
use rit_k8s_rdma_sriov_cni.Go.{ok, attempt}
use rit_k8s_rdma_sriov_cni.Go.Laws.{by_parts_eq, bind_eq, attempt_eq, if_false}
use rit_k8s_rdma_sriov_cni.Go.Strconv.{itoa}
use rit_k8s_rdma_sriov_cni.Cni.{IpConfig020, IpamResult}
use rit_k8s_rdma_sriov_cni.Host.{Host, Ns, InterfaceRequest, PfInfo}
use rit_k8s_rdma_sriov_cni.Setup.{setup_vf}
use rit_k8s_rdma_sriov_cni.Add.Interfaces.{
  CmdArgs, release_ipam, Progress, Ending, element, collect, after_configure, configure, after_ipam,
  address_interface, after_setup, add_interface, add_interfaces,
}
use rit_k8s_rdma_sriov_cni.Add.Success.{IsAdded, Adds, finished, next}
use rit_k8s_rdma_sriov_cni.Add.Success.Needed.{at, add_interface-IsAdded}

module _ {W : Type 0} (h : Host W) (args : CmdArgs) (netns : Ns) (requests : List InterfaceRequest)
    (pfs : List PfInfo) where
  some-element :
      {A : Type 0} (xs : List A) (i : ℕ) (x : A) (w : W)
      → get_elem? xs i ≡ some x
      → element xs i w ≡ (ok x, w)
  unfolding element
  some-element xs i x w e = ap (λ o. at h args netns requests pfs o w) e

  configure_eq :
      (p : Progress) (if_name : String) (result : IpamResult) (o : Option IpConfig020)
      (ip4 : IpConfig020) (w u : W)
      → o ≡ some ip4
      → h.do_in_ns netns (h.configure_iface if_name result) w ≡ (ok tt, u)
      → configure h args netns p if_name result o w ≡ (
        ok (record p {
          deferred = release_ipam ∷ p.deferred;
          final = collect h.new_result_from_result if_name p.conf.dns ip4 p.final;
        }),
        u,
      )
  unfolding configure after_configure
  configure_eq p if_name result o ip4 w u has done =
      ap (λ x. configure h args netns p if_name result x w) has
      ∙ bind_eq (attempt (h.do_in_ns netns (h.configure_iface if_name result))) _ w
          (attempt_eq {F = Ending} (h.do_in_ns netns (h.configure_iface if_name result)) w done)

  address_interface_eq :
      (p : Progress) (if_name : String) (result : IpamResult) (ip4 : IpConfig020) (w v u : W)
      → (p.conf.dpdk_mode || p.conf.l2_mode) ≡ false
      → h.exec_add p.conf.ipam_type args.stdin_data w ≡ (ok result, v)
      → result.ip4 ≡ some ip4
      → h.do_in_ns netns (h.configure_iface if_name result) v ≡ (ok tt, u)
      → address_interface h args netns p if_name w ≡ (
        ok (record p {
          deferred = release_ipam ∷ p.deferred;
          final = collect h.new_result_from_result if_name p.conf.dns ip4 p.final;
        }),
        u,
      )
  unfolding address_interface
  address_interface_eq p if_name result ip4 w v u plain answers has configures =
      if_false (p.conf.dpdk_mode || p.conf.l2_mode) _ _ w plain
      ∙ bind_eq (attempt (h.exec_add p.conf.ipam_type args.stdin_data))
          (after_ipam h args netns p if_name) w
          (attempt_eq {F = Ending} (h.exec_add p.conf.ipam_type args.stdin_data) w answers)
      ∙ configure_eq p if_name result result.ip4 ip4 v u has configures

  IsAdded-add_interface :
      (placement i : ℕ) (p p' : Progress) (w u : W)
      → IsAdded h args netns requests pfs placement i p w p' u
      → add_interface h args netns requests pfs placement i p w ≡ (ok p', u)
  unfolding add_interface after_setup
  IsAdded-add_interface placement i p p' w u a =
      bind_eq (element pfs placement) _ w (some-element pfs placement a.pf w a.at_placement)
      ∙ bind_eq (element requests i) _ w (some-element requests i a.request w a.requested)
      ∙ bind_eq
          (attempt
            (setup_vf h p.conf a.pf.name ("eth" <> itoa i) args.container_id netns a.request))
          _ w
          (attempt_eq {F = Ending}
            (setup_vf h p.conf a.pf.name ("eth" <> itoa i) args.container_id netns a.request) w
            a.sets_up)
      ∙ address_interface_eq _ ("eth" <> itoa i) a.result a.ip4 a.taken a.answered u a.plain
          a.answers a.has_ip4 a.configures
      ∙ ap (λ q. (ok q, u)) a.progress

  add_interfaces-Adds :
      (placements : List ℕ) (i : ℕ) (p p' : Progress) (w u : W)
      → add_interfaces h args netns requests pfs placements i p w ≡ (ok p', u)
      → Adds h args netns requests pfs placements i p w p' u
  unfolding add_interfaces
  add_interfaces-Adds [] i p p' w u e =
      let same : p ≡ p' = cc (ap (λ r. r.0) e) in
      subst (λ q. Adds h args netns requests pfs [] i p w q u) same
        (subst (Adds h args netns requests pfs [] i p w p) (ap (λ r. r.1) e) finished)
  add_interfaces-Adds (placement ∷ rest) i p p' w u e =
      by_parts_eq (add_interface h args netns requests pfs placement i p) _ w e λ q v ran e'.
        next (add_interface-IsAdded h args netns requests pfs placement i p q w v ran)
          (add_interfaces-Adds rest (suc i) q p' v u e')

  Adds-add_interfaces :
      (placements : List ℕ) (i : ℕ) (p p' : Progress) (w u : W)
      → Adds h args netns requests pfs placements i p w p' u
      → add_interfaces h args netns requests pfs placements i p w ≡ (ok p', u)
  unfolding add_interfaces
  Adds-add_interfaces _ i p _ w _ finished = refl
  Adds-add_interfaces (placement ∷ rest) i p p' w u (next {p' = q} {w' = v} a more) =
      bind_eq (add_interface h args netns requests pfs placement i p) _ w
        (IsAdded-add_interface placement i p q w v a)
      ∙ Adds-add_interfaces rest (suc i) q p' v u more

  -- The loop of an ADD over the placements succeeds exactly if every interface is added: its placement
  -- is the number of a PF and there is a request for it, a VF of the PF is set up under the name `eth`
  -- and its number with a configuration in neither DPDK mode nor L2 mode, the IPAM plugin answers with
  -- an IPv4 address, and the interface is configured in the pod. Each interface starts from the
  -- configuration and the results that the one before has left.
  pub add_interfaces-Adds_iff :
      (placements : List ℕ) (i : ℕ) (p p' : Progress) (w u : W)
      → (add_interfaces h args netns requests pfs placements i p w ≡ (ok p', u))
        ↔ Adds h args netns requests pfs placements i p w p' u
  add_interfaces-Adds_iff placements i p p' w u =
      (add_interfaces-Adds placements i p p' w u, Adds-add_interfaces placements i p p' w u)
