-- ===== src/Add/Listed.antt =====
-- The interfaces that a successful ADD prints.
use rit_k8s_rdma_sriov_cni.Base.{
  ℕ, suc, ◌≡◌, refl, sym, ap, ◌∙◌, String, ◌<>◌, ◌||◌, Option, none, some, List, [], ◌∷◌, ◌++◌,
}
use rit_k8s_rdma_sriov_cni.Go.{Error, ok, Tried, success, failure, attempt}
use rit_k8s_rdma_sriov_cni.Go.Laws.{by_parts, by_branch}
use rit_k8s_rdma_sriov_cni.Go.Strconv.{itoa}
use rit_k8s_rdma_sriov_cni.Cni.{Dns, IpConfig020, IpamResult, Interface, Result020, CurrentResult}
use rit_k8s_rdma_sriov_cni.Host.{Host, Ns, InterfaceRequest, PfInfo}
use rit_k8s_rdma_sriov_cni.Setup.{VfFailure, VfSetup, setup_vf}
use rit_k8s_rdma_sriov_cni.Add.Interfaces.{
  CmdArgs, Progress, element, address_interface, after_setup, add_interface, add_interfaces,
  after_ipam, configure, after_configure, collect, to_020, merged, append_ip,
}

-- What is assumed of the conversion of results: it succeeds, and lists no interface, since a result of
-- CNI 0.2.0 has none.
abbrev pub Converts : (Result020 → Tried Error CurrentResult) → Type 0
Converts convert =
    (r : Result020) → (new : CurrentResult) × (convert r ≡ success new) × (new.interfaces ≡ [])

abbrev pub listed : Option CurrentResult → List Interface
listed none = []
listed (some r) = r.interfaces

-- The interfaces `eth<i>` from `i` on, one for each placement
abbrev pub names_from : ℕ → List ℕ → List Interface
names_from i [] = []
names_from i (placement ∷ rest) = record { name = "eth" <> itoa i } ∷ names_from (suc i) rest

append_assoc : {A : Type 0} (xs ys zs : List A) → (xs ++ ys) ++ zs ≡ xs ++ (ys ++ zs)
append_assoc [] ys zs = refl
append_assoc (x ∷ xs) ys zs = ap (λ l. x ∷ l) (append_assoc xs ys zs)

append_nil : {A : Type 0} (xs : List A) → xs ++ [] ≡ xs
append_nil [] = refl
append_nil (x ∷ xs) = ap (λ l. x ∷ l) (append_nil xs)

module _ {W : Type 0} (h : Host W) (args : CmdArgs) (netns : Ns)
    (law : Converts h.new_result_from_result) where
  collect-listed :
      (if_name : String) (dns : Dns) (ip4 : IpConfig020) (final : Option CurrentResult)
      → listed (collect h.new_result_from_result if_name dns ip4 final)
        ≡ listed final ++ record { name = if_name } ∷ []
  unfolding collect merged append_ip to_020
  collect-listed if_name dns ip4 none =
      let (new, converted, bare) = law (to_020 dns ip4) in rw (converted, collect, bare) refl
  collect-listed if_name dns ip4 (some final) =
      let (new, converted, bare) = law (to_020 dns ip4) in rw (converted, collect) refl

  -- `p'` lists one interface more than `p`.
  abbrev Lists : Progress → String → Progress → Type 0
  Lists p if_name p' = listed p'.final ≡ listed p.final ++ record { name = if_name } ∷ []

  after_configure-listed :
      (p : Progress) (if_name : String) (ip4 : IpConfig020) (r : Tried Error Unit) (w : W)
      (p' : Progress)
      → (after_configure h args netns p if_name ip4 r w).0 ≡ ok p'
      → Lists p if_name p'
  unfolding after_configure
  after_configure-listed p if_name ip4 (failure e) w p' done = cc
  after_configure-listed p if_name ip4 (success _) w p' done =
      let q : record p { final = collect h.new_result_from_result if_name p.conf.dns ip4 p.final }
          ≡ p' =
        cc in
      sym (ap (λ x. listed x.final) q) ∙ collect-listed if_name p.conf.dns ip4 p.final

  configure-listed :
      (p : Progress) (if_name : String) (result : IpamResult) (ip4 : Option IpConfig020) (w : W)
      (p' : Progress)
      → (configure h args netns p if_name result ip4 w).0 ≡ ok p'
      → Lists p if_name p'
  unfolding configure
  configure-listed p if_name result none w p' done = cc
  configure-listed p if_name result (some ip4) w p' done =
      by_parts (attempt (h.do_in_ns netns (h.configure_iface if_name result))) _ w done
        λ r v _ e. after_configure-listed _ if_name ip4 r v p' e

  after_ipam-listed :
      (p : Progress) (if_name : String) (r : Tried Error IpamResult) (w : W) (p' : Progress)
      → (after_ipam h args netns p if_name r w).0 ≡ ok p'
      → Lists p if_name p'
  unfolding after_ipam
  after_ipam-listed p if_name (failure e) w p' done = cc
  after_ipam-listed p if_name (success result) w p' done =
      configure-listed p if_name result result.ip4 w p' done

  address_interface-listed :
      (p : Progress) (if_name : String) (w : W) (p' : Progress)
      → (address_interface h args netns p if_name w).0 ≡ ok p'
      → Lists p if_name p'
  unfolding address_interface
  address_interface-listed p if_name w p' done =
      by_branch (p.conf.dpdk_mode || p.conf.l2_mode) _ _ w done
        (λ e. by_parts (attempt h.print_nil_result) _ w e λ _ _ _ failed. cc)
        (λ e.
          by_parts (attempt (h.exec_add p.conf.ipam_type args.stdin_data)) _ w e
            λ r v _ e1. after_ipam-listed p if_name r v p' e1)

  after_setup-listed :
      (p : Progress) (if_name pf_name : String) (taken : Tried VfFailure VfSetup) (w : W)
      (p' : Progress)
      → (after_setup h args netns p if_name pf_name taken w).0 ≡ ok p'
      → Lists p if_name p'
  unfolding after_setup
  after_setup-listed p if_name pf_name (failure f) w p' done = cc
  after_setup-listed p if_name pf_name (success s) w p' done =
      address_interface-listed _ if_name w p' done

  add_interface-listed :
      (requests : List InterfaceRequest) (pfs : List PfInfo) (placement i : ℕ) (p : Progress)
      (w : W) (p' : Progress)
      → (add_interface h args netns requests pfs placement i p w).0 ≡ ok p'
      → Lists p ("eth" <> itoa i) p'
  unfolding add_interface
  add_interface-listed requests pfs placement i p w p' done =
      by_parts (element pfs placement) _ w done λ pf w1 _ e1.
        by_parts (element requests i) _ w1 e1 λ request w2 _ e2.
          by_parts
            (attempt (setup_vf h p.conf pf.name ("eth" <> itoa i) args.container_id netns request))
            _ w2 e2 λ taken w3 _ e3. after_setup-listed p ("eth" <> itoa i) pf.name taken w3 p' e3

  -- If the conversion of results succeeds and lists no interface of its own, a loop over a pod's
  -- placements that succeeds lists, after what it listed before, one interface for each placement,
  -- in order: `eth` with the numbers from `i` on, whatever the configuration's `if0name` is.
  pub add_interfaces-listed :
      (requests : List InterfaceRequest) (pfs : List PfInfo) (placements : List ℕ) (i : ℕ)
      (p : Progress) (w : W) (p' : Progress)
      → (add_interfaces h args netns requests pfs placements i p w).0 ≡ ok p'
      → listed p'.final ≡ listed p.final ++ names_from i placements
  unfolding add_interfaces
  add_interfaces-listed requests pfs [] i p w p' done =
      let q : p ≡ p' = cc in sym (ap (λ x. listed x.final) q) ∙ sym (append_nil (listed p.final))
  add_interfaces-listed requests pfs (placement ∷ rest) i p w p' done =
      by_parts (add_interface h args netns requests pfs placement i p) _ w done λ p1 w1 ran e1.
        add_interfaces-listed requests pfs rest (suc i) p1 w1 p' e1
        ∙ ap (λ l. l ++ names_from (suc i) rest)
            (add_interface-listed requests pfs placement i p w p1 (ap (λ r. r.0) ran))
        ∙ append_assoc (listed p.final) (record { name = "eth" <> itoa i } ∷ [])
            (names_from (suc i) rest)
