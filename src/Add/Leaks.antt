-- ===== src/Add/Leaks.antt =====
-- The early returns of `cmdAdd` at which its variable `err` is nil.
use rit_k8s_rdma_sriov_cni.Base.{
  ℕ, String, ◌<>◌, ◌≡◌, ap, ◌∙◌, false, ◌||◌, none, some, List, [], ◌∷◌, get_elem?,
}
use rit_k8s_rdma_sriov_cni.Go.{Error, errorf, Outcome, ok, err, attempt, Run}
use rit_k8s_rdma_sriov_cni.Go.Laws.{bind_eq, bind_eq_err, attempt_eq, if_true, if_false}
use rit_k8s_rdma_sriov_cni.Go.Strconv.{itoa}
use rit_k8s_rdma_sriov_cni.Cni.{IpamResult}
use rit_k8s_rdma_sriov_cni.Host.{Host, Ns, InterfaceRequest, PfInfo}
use rit_k8s_rdma_sriov_cni.Setup.{VfFailure, VfSetup, setup_vf}
use rit_k8s_rdma_sriov_cni.Add.{after_interfaces}
use rit_k8s_rdma_sriov_cni.Add.Interfaces.{
  CmdArgs, Progress, Ending, rollback, element, address_interface, after_setup, add_interface,
  add_interfaces, print_error, after_ipam, configure,
}
use rit_k8s_rdma_sriov_cni.Add.Rollback.{run_deferred_calls-none}
use rit_k8s_rdma_sriov_cni.Add.Modes.{Unaddressed, keeps_mode}

module _ {W : Type 0} (h : Host W) (args : CmdArgs) (netns : Ns) where
  element-at :
      {A : Type 0} (xs : List A) (i : ℕ) (x : A) (w : W)
      → get_elem? xs i ≡ some x
      → element xs i w ≡ (ok x, w)
  unfolding element
  element-at xs i x w e = rw (e, element)

  -- With `err` nil an early return undoes nothing.
  after_interfaces-none :
      (p : Progress) (e : Error) (w : W)
      → after_interfaces h args netns
          (Outcome.err (record { progress = p; err_var = none; returned = e }))
          w
        ≡ (err e, w)
  unfolding after_interfaces
  after_interfaces-none p e w = rw (run_deferred_calls-none h args netns p.conf p.deferred w)

  -- The variables of the loop once the VF is in the pod
  abbrev with_vf : Progress → String → String → VfSetup → Progress
  with_vf p if_name pf_name s = record p {
    conf = s.conf;
    deferred = rollback if_name pf_name (some s.vf_idx) ∷ p.deferred;
  }

  -- What `setupVF` is called with for interface `i`
  abbrev pub taking : Progress → PfInfo → InterfaceRequest → ℕ → Run W VfFailure VfSetup
  taking p pf request i =
      setup_vf h p.conf pf.name ("eth" <> itoa i) args.container_id netns request

  -- The loop from interface `i` on, with its deferred calls and the return
  abbrev pub add_rest :
      List InterfaceRequest → List PfInfo → List ℕ → ℕ → Progress → Run W Error Unit
  add_rest requests pfs placements i p w =
      let (r, v) = add_interfaces h args netns requests pfs placements i p w in
      after_interfaces h args netns r v

  abbrev printed_error : Error
  printed_error = errorf "error setting dpdk mode: %s" ("%!s(<nil>)" ∷ [])

  -- Without an address the only call is the printing of a nil result.
  address_interface-Unaddressed :
      (p : Progress) (if_name : String) (w w' : W)
      → Unaddressed p.conf
      → h.print_nil_result w ≡ (ok tt, w')
      → address_interface h args netns p if_name w
        ≡ (err (record { progress = p; err_var = none; returned = printed_error }), w')
  unfolding address_interface print_error
  address_interface-Unaddressed p if_name w w' mode printed =
      if_true _ _ _ w mode
      ∙ bind_eq (attempt h.print_nil_result) _ w
          (attempt_eq {F = Ending} h.print_nil_result w printed)

  address_interface-missing :
      (p : Progress) (if_name : String) (w w' : W) (result : IpamResult)
      → (p.conf.dpdk_mode || p.conf.l2_mode) ≡ false
      → h.exec_add p.conf.ipam_type args.stdin_data w ≡ (ok result, w')
      → result.ip4 ≡ none
      → address_interface h args netns p if_name w ≡ (
        err (record {
          progress = p;
          err_var = none;
          returned = errorf "IPAM plugin returned missing IPv4 config" [];
        }),
        w',
      )
  unfolding address_interface after_ipam configure
  address_interface-missing p if_name w w' result mode answered missing =
      if_false _ _ _ w mode
      ∙ bind_eq (attempt (h.exec_add p.conf.ipam_type args.stdin_data)) _ w
          (attempt_eq {F = Ending} (h.exec_add p.conf.ipam_type args.stdin_data) w answered)
      ∙ ap (λ x. configure h args netns p if_name result x w') missing

  module _ (requests : List InterfaceRequest) (pfs : List PfInfo) (placement i : ℕ) (p : Progress)
      (w : W) (pf : PfInfo) (request : InterfaceRequest) (s : VfSetup) (w1 : W)
      (placed : get_elem? pfs placement ≡ some pf) (requested : get_elem? requests i ≡ some request)
      (set_up : taking p pf request i w ≡ (ok s, w1)) where
    after_set_up :
        add_interface h args netns requests pfs placement i p w
        ≡ address_interface h args netns
            (with_vf p ("eth" <> itoa i) pf.name s)
            ("eth" <> itoa i)
            w1
    unfolding add_interface after_setup
    after_set_up =
        bind_eq (element pfs placement) _ w (element-at pfs placement pf w placed)
        ∙ bind_eq (element requests i) _ w (element-at requests i request w requested)
        ∙ bind_eq (attempt (taking p pf request i)) _ w
            (attempt_eq {F = Ending} (taking p pf request i) w set_up)

    returned_early :
        (rest : List ℕ) (e : Error) (w2 : W)
        → address_interface h args netns
            (with_vf p ("eth" <> itoa i) pf.name s)
            ("eth" <> itoa i)
            w1
          ≡ (
            err (record {
              progress = with_vf p ("eth" <> itoa i) pf.name s;
              err_var = none;
              returned = e;
            }),
            w2,
          )
        → add_rest requests pfs (placement ∷ rest) i p w ≡ (err e, w2)
    unfolding add_interfaces
    returned_early rest e w2 ended =
        ap (λ r. after_interfaces h args netns r.0 r.1)
          (bind_eq_err (add_interface h args netns requests pfs placement i p) _ w
            (after_set_up ∙ ended))
        ∙ after_interfaces-none (with_vf p ("eth" <> itoa i) pf.name s) e w2

    -- In L2 mode and in DPDK mode, once the VF of an interface is in the pod, the command returns an
    -- error. After that VF was set up it calls nothing but the printing of a nil result: neither
    -- this interface nor an earlier one is released.
    pub l2_vf_kept :
        (rest : List ℕ) (w2 : W)
        → Unaddressed p.conf
        → h.print_nil_result w1 ≡ (ok tt, w2)
        → add_rest requests pfs (placement ∷ rest) i p w ≡ (err printed_error, w2)
    l2_vf_kept rest w2 mode printed = returned_early rest printed_error w2 (
        address_interface-Unaddressed _ ("eth" <> itoa i) w1 w2
          (keeps_mode h args netns p.conf pf.name ("eth" <> itoa i) args.container_id request w s
            mode (ap (λ r. r.0) set_up))
          printed)

    -- If the IPAM plugin answers without an IPv4 address, the command returns an error, and calls
    -- nothing after the plugin's ADD: neither the plugin's DEL, nor the release of an interface.
    pub missing_ipv4_kept :
        (rest : List ℕ) (result : IpamResult) (w2 : W)
        → (s.conf.dpdk_mode || s.conf.l2_mode) ≡ false
        → h.exec_add s.conf.ipam_type args.stdin_data w1 ≡ (ok result, w2)
        → result.ip4 ≡ none
        → add_rest requests pfs (placement ∷ rest) i p w
          ≡ (err (errorf "IPAM plugin returned missing IPv4 config" []), w2)
    missing_ipv4_kept rest result w2 mode answered missing =
        returned_early rest (errorf "IPAM plugin returned missing IPv4 config" []) w2
          (address_interface-missing _ ("eth" <> itoa i) w1 w2 result mode answered missing)
