-- ===== src/Add/Success/Needed.antt =====
-- What was done for an interface that the loop of an ADD has added.
use rit_k8s_rdma_sriov_cni.Base.{
  ℕ, ◌≡◌, refl, sym, ap, ◌∙◌, inl, inr, String, ◌<>◌, false, ◌||◌, Bool-cases, Option, none, some,
  List, ◌∷◌, get_elem?,
}
use rit_k8s_rdma_sriov_cni.Go.{
  Error, ok, Run, Tried, success, failure, panics, pure, attempt, ◌>>=◌,
}
use rit_k8s_rdma_sriov_cni.Go.Laws.{by_parts_eq, attempt-success_eq, if_true, if_false}
use rit_k8s_rdma_sriov_cni.Go.Strconv.{itoa}
use rit_k8s_rdma_sriov_cni.Cni.{IpConfig020, IpamResult}
use rit_k8s_rdma_sriov_cni.Host.{Host, Ns, InterfaceRequest, PfInfo}
use rit_k8s_rdma_sriov_cni.Setup.{VfFailure, VfSetup, setup_vf}
use rit_k8s_rdma_sriov_cni.Add.Interfaces.{
  CmdArgs, rollback, release_ipam, Progress, Ending, element, returns, print_error, collect,
  after_configure, configure, after_ipam, address_interface, after_setup, add_interface,
}
use rit_k8s_rdma_sriov_cni.Add.Success.{IsAdded}

module _ {W : Type 0} (h : Host W) (args : CmdArgs) (netns : Ns) (requests : List InterfaceRequest)
    (pfs : List PfInfo) where
  abbrev pub at : {A : Type 0} → Option A → Run W Ending A
  at o = elim o [ none ↦ panics | some x ↦ pure x ]

  at-some :
      {A : Type 0} (o : Option A) (x : A) (w u : W) → at o w ≡ (ok x, u) → (o ≡ some x) × (w ≡ u)
  at-some none x w u e = cc (ap (λ r. r.0) e)
  at-some (some y) x w u e = (cc (ap (λ r. r.0) e), ap (λ r. r.1) e)

  element-some :
      {A : Type 0} (xs : List A) (i : ℕ) (x : A) (w u : W)
      → element xs i w ≡ (ok x, u)
      → (get_elem? xs i ≡ some x) × (w ≡ u)
  unfolding element
  element-some xs i x w u e = at-some (get_elem? xs i) x w u e

  after_configure-ok :
      (p : Progress) (if_name : String) (ip4 : IpConfig020) (r : Tried Error Unit) (w u : W)
      (p' : Progress)
      → after_configure h args netns p if_name ip4 r w ≡ (ok p', u)
      → (r ≡ success tt)
        × (record p { final = collect h.new_result_from_result if_name p.conf.dns ip4 p.final }
            ≡ p')
        × (w ≡ u)
  unfolding after_configure
  after_configure-ok p if_name ip4 (failure e) w u p' done = cc (ap (λ r. r.0) done)
  after_configure-ok p if_name ip4 (success _) w u p' done =
      (refl, cc (ap (λ r. r.0) done), ap (λ r. r.1) done)

  configure-ok :
      (p : Progress) (if_name : String) (result : IpamResult) (o : Option IpConfig020) (w u : W)
      (p' : Progress)
      → configure h args netns p if_name result o w ≡ (ok p', u)
      → (ip4 : IpConfig020) × (o ≡ some ip4)
        × (h.do_in_ns netns (h.configure_iface if_name result) w ≡ (ok tt, u))
        × (record p {
          deferred = release_ipam ∷ p.deferred;
          final = collect h.new_result_from_result if_name p.conf.dns ip4 p.final;
        }
            ≡ p')
  unfolding configure
  configure-ok p if_name result none w u p' done = cc (ap (λ r. r.0) done)
  configure-ok p if_name result (some ip4) w u p' done =
      by_parts_eq (attempt (h.do_in_ns netns (h.configure_iface if_name result))) _ w done
        λ r v ran e.
          let (fine, progress, same) =
            after_configure-ok (record p { deferred = release_ipam ∷ p.deferred }) if_name ip4 r v u
              p' e in
          (
            ip4,
            refl,
            attempt-success_eq {F = Ending} (h.do_in_ns netns (h.configure_iface if_name result)) w
                (ran ∙ ap (λ t. (ok t, v)) fine ∙ ap (λ x. (ok (success tt), x)) same),
            progress,
          )

  after_ipam-ok :
      (p : Progress) (if_name : String) (r : Tried Error IpamResult) (w u : W) (p' : Progress)
      → after_ipam h args netns p if_name r w ≡ (ok p', u)
      → (result : IpamResult) × (r ≡ success result)
        × (configure h args netns p if_name result result.ip4 w ≡ (ok p', u))
  unfolding after_ipam
  after_ipam-ok p if_name (failure e) w u p' done = cc (ap (λ r. r.0) done)
  after_ipam-ok p if_name (success result) w u p' done = (result, refl, done)

  after_setup-ok :
      (p : Progress) (if_name pf_name : String) (r : Tried VfFailure VfSetup) (w u : W)
      (p' : Progress)
      → after_setup h args netns p if_name pf_name r w ≡ (ok p', u)
      → (s : VfSetup) × (r ≡ success s)
        × (address_interface h args netns
              (record p {
                conf = s.conf;
                deferred = rollback if_name pf_name (some s.vf_idx) ∷ p.deferred;
              })
              if_name
              w
            ≡ (ok p', u))
  unfolding after_setup
  after_setup-ok p if_name pf_name (failure f) w u p' done = cc (ap (λ r. r.0) done)
  after_setup-ok p if_name pf_name (success s) w u p' done = (s, refl, done)

  abbrev refusing : Progress → Run W Ending Progress
  refusing p = do printed ← attempt h.print_nil_result; returns p none (print_error printed)

  refusing-ok : {C : Type 0} (p p' : Progress) (w u : W) → refusing p w ≡ (ok p', u) → C
  refusing-ok p p' w u done =
      by_parts_eq (attempt h.print_nil_result) _ w done λ printed v _ e. cc (ap (λ r. r.0) e)

  address_interface-ok :
      (p : Progress) (if_name : String) (w u : W) (p' : Progress)
      → address_interface h args netns p if_name w ≡ (ok p', u)
      → ((p.conf.dpdk_mode || p.conf.l2_mode) ≡ false)
        × ((result : IpamResult) × (ip4 : IpConfig020) × (v : W) × (h.exec_add p.conf.ipam_type
                args.stdin_data w
              ≡ (ok result, v))
            × (result.ip4 ≡ some ip4)
            × (h.do_in_ns netns (h.configure_iface if_name result) v ≡ (ok tt, u))
            × (record p {
              deferred = release_ipam ∷ p.deferred;
              final = collect h.new_result_from_result if_name p.conf.dns ip4 p.final;
            }
                ≡ p'))
  unfolding address_interface
  address_interface-ok p if_name w u p' done =
      elim (Bool-cases (p.conf.dpdk_mode || p.conf.l2_mode)) [
        | inl other ↦
            refusing-ok p p' w u
              (sym (if_true (p.conf.dpdk_mode || p.conf.l2_mode) _ _ w other) ∙ done)
        | inr plain ↦
            by_parts_eq (attempt (h.exec_add p.conf.ipam_type args.stdin_data))
              (after_ipam h args netns p if_name) w
              (sym (if_false (p.conf.dpdk_mode || p.conf.l2_mode) _ _ w plain) ∙ done)
              λ r v ran e.
                let (result, answered, configured) = after_ipam-ok p if_name r v u p' e in
                let (ip4, has, done', progress) =
                  configure-ok p if_name result result.ip4 v u p' configured in
                (
                  plain,
                  (
                    result,
                    ip4,
                    v,
                    attempt-success_eq {F = Ending} (h.exec_add p.conf.ipam_type args.stdin_data) w
                        (ran ∙ ap (λ t. (ok t, v)) answered),
                    has,
                    done',
                    progress,
                  ),
                )
      ]

  pub add_interface-IsAdded :
      (placement i : ℕ) (p p' : Progress) (w u : W)
      → add_interface h args netns requests pfs placement i p w ≡ (ok p', u)
      → IsAdded h args netns requests pfs placement i p w p' u
  unfolding add_interface
  add_interface-IsAdded placement i p p' w u done =
      by_parts_eq (element pfs placement) _ w done λ pf w1 got e1.
        by_parts_eq (element requests i) _ w1 e1 λ request w2 asked e2.
          by_parts_eq
            (attempt (setup_vf h p.conf pf.name ("eth" <> itoa i) args.container_id netns request))
            _ w2 e2
            λ r w3 ran e3.
              let (at_placement, same1) = element-some pfs placement pf w w1 got in
              let (requested, same2) = element-some requests i request w1 w2 asked in
              let (s, is_ok, rest) = after_setup-ok p ("eth" <> itoa i) pf.name r w3 u p' e3 in
              let (plain, (result, ip4, v, answers, has, configures, progress)) =
                address_interface-ok _ ("eth" <> itoa i) w3 u p' rest in
              record {
                pf = pf;
                request = request;
                s = s;
                result = result;
                ip4 = ip4;
                taken = w3;
                answered = v;
                at_placement = at_placement;
                requested = requested;
                sets_up =
                    attempt-success_eq {F = Ending}
                      (setup_vf h p.conf pf.name ("eth" <> itoa i) args.container_id netns request)
                      w
                      (ap
                          (attempt {F = Ending} (
                            setup_vf h p.conf pf.name ("eth" <> itoa i) args.container_id netns
                              request))
                          (same1 ∙ same2)
                        ∙ ran
                        ∙ ap (λ t. (ok t, w3)) is_ok);
                plain = plain;
                answers = answers;
                has_ip4 = has;
                configures = configures;
                progress = progress;
              }
