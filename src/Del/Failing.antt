-- ===== src/Del/Failing.antt =====
-- When a DEL returns an error.
use rit_k8s_rdma_sriov_cni.Base.{
  ◌≡◌, ◌↔◌, ◌⊎◌, inl, inr, sym, ap, ◌∙◌, true, false, Bool-cases, List, [], ◌=?◌, if◌then◌else◌,
}
use rit_k8s_rdma_sriov_cni.Go.{Error, ok, err, Run, wrapf, pure, attempt, ◌>>=◌, ◌orelse◌}
use rit_k8s_rdma_sriov_cni.Go.Laws.{
  by_error_eq, orelse-err_eq, attempt-no_err, bind_eq, bind_eq_err, orelse_eq_err, if_true,
  if_false,
}
use rit_k8s_rdma_sriov_cni.Conf.{NetConf}
use rit_k8s_rdma_sriov_cni.Host.{Host, NetInterface}
use rit_k8s_rdma_sriov_cni.Add.Interfaces.{CmdArgs}
use rit_k8s_rdma_sriov_cni.Del.{
  get_namespace_interfaces, or_no_pfs, release_interfaces, release_pod, del_locked,
}
use rit_k8s_rdma_sriov_cni.Del.Errors.{release_interfaces-no_err}

module _ {W : Type 0} (h : Host W) (n : NetConf) (args : CmdArgs) where
  -- The IPAM plugin has taken the addresses back, or there is none.
  abbrev pub Returned : W → W → Type 0
  Returned w x =
      (((n.ipam_type =? "") ≡ true) × (w ≡ x))
      ⊎ (((n.ipam_type =? "") ≡ false) × (h.exec_del n.ipam_type args.stdin_data w ≡ (ok tt, x)))

  -- What makes a DEL fail: the IPAM plugin, or the list of the pod's interfaces
  pub data Fails (w : W) (e : Error) (u : W) : Type 0 where
    ipam_fails :
        (n.ipam_type =? "") ≡ false
        → h.exec_del n.ipam_type args.stdin_data w ≡ (err e, u)
        → Fails w e u
    list_fails :
        {x : W} (cause : Error)
        → Returned w x
        → (args.netns =? "") ≡ false
        → get_namespace_interfaces h args.netns x ≡ (err cause, u)
        → wrapf "Error getting iterfaces: %s" [] cause ≡ e
        → Fails w e u

  abbrev ipam_step : Run W Error Unit
  ipam_step = if n.ipam_type =? "" then pure tt else h.exec_del n.ipam_type args.stdin_data

  abbrev listing : Run W Error (List NetInterface)
  listing = get_namespace_interfaces h args.netns orelse wrapf "Error getting iterfaces: %s" []

  ipam_step-ok : (w x : W) → ipam_step w ≡ (ok tt, x) → Returned w x
  ipam_step-ok w x e = elim (Bool-cases (n.ipam_type =? "")) [
    | inl none ↦ inl (none, ap (λ r. r.1) (sym (if_true (n.ipam_type =? "") _ _ w none) ∙ e))
    | inr some ↦ inr (some, sym (if_false (n.ipam_type =? "") _ _ w some) ∙ e)
  ]

  Returned-ok : (w x : W) → Returned w x → ipam_step w ≡ (ok tt, x)
  Returned-ok w x (inl (none, same)) =
      if_true (n.ipam_type =? "") _ _ w none ∙ ap (λ y. (ok tt, y)) same
  Returned-ok w x (inr (some, e)) = if_false (n.ipam_type =? "") _ _ w some ∙ e

  ipam_step-err : (w u : W) (e : Error) → ipam_step w ≡ (err e, u) → Fails w e u
  ipam_step-err w u e r = elim (Bool-cases (n.ipam_type =? "")) [
    | inl none ↦ cc (ap (λ q. q.0) (sym (if_true (n.ipam_type =? "") _ _ w none) ∙ r))
    | inr some ↦ ipam_fails some (sym (if_false (n.ipam_type =? "") _ _ w some) ∙ r)
  ]

  -- What follows the list: no error.
  released-no_err :
      (interfaces : List NetInterface) (x u : W) (e : Error)
      → ¬ (
          (attempt (h.query_node "127.0.0.1" "54005" 1500) >>= λ pfs.
          release_interfaces h n args (or_no_pfs pfs) interfaces)
            x
          ≡ (err e, u))
  released-no_err interfaces x u e r =
      by_error_eq (attempt (h.query_node "127.0.0.1" "54005" 1500)) _ x r
        (λ q. attempt-no_err (h.query_node "127.0.0.1" "54005" 1500) x q)
        (λ pfs y q s.
          release_interfaces-no_err h args (or_no_pfs pfs) n interfaces y e (ap (λ t. t.0) s))

  release_pod-Fails :
      (w x u : W) (e : Error) → Returned w x → release_pod h n args x ≡ (err e, u) → Fails w e u
  unfolding release_pod
  release_pod-Fails w x u e done r = elim (Bool-cases (args.netns =? "")) [
    | inl none ↦ cc (ap (λ q. q.0) (sym (if_true (args.netns =? "") _ _ x none) ∙ r))
    | inr some ↦
        by_error_eq listing _ x (sym (if_false (args.netns =? "") _ _ x some) ∙ r)
          (λ q.
            let (cause, failed, is) = orelse-err_eq (get_namespace_interfaces h args.netns) _ x q in
            list_fails cause done some failed is)
          (λ interfaces y _ s. absurd (released-no_err interfaces y u e s))
  ]

  Fails-del_locked : (w u : W) (e : Error) → Fails w e u → del_locked h n args w ≡ (err e, u)
  unfolding del_locked release_pod
  Fails-del_locked w u e (ipam_fails some r) =
      bind_eq_err ipam_step _ w (if_false (n.ipam_type =? "") _ _ w some ∙ r)
  Fails-del_locked w u e (list_fails {x} cause done some r is) =
      bind_eq ipam_step _ w (Returned-ok w x done)
      ∙ if_false (args.netns =? "") _ _ x some
      ∙ bind_eq_err listing _ x
          (orelse_eq_err (get_namespace_interfaces h args.netns) _ x r ∙ ap (λ c. (err c, u)) is)

  -- A DEL, between the acquisition and the release of the mutex, returns an error exactly if the IPAM
  -- plugin does, or the list of the pod's interfaces cannot be got: then the error is the plugin's, and
  -- no interface was listed, or it is that of the list, wrapped. A failed release of an interface, or a
  -- failed query for the PFs, is none.
  pub del_locked-Fails_iff :
      (w u : W) (e : Error) → (del_locked h n args w ≡ (err e, u)) ↔ Fails w e u
  unfolding del_locked
  del_locked-Fails_iff w u e = (
    λ r.
        by_error_eq ipam_step _ w r (ipam_step-err w u e)
          λ _ x q s. release_pod-Fails w x u e (ipam_step-ok w x q) s,
    Fails-del_locked w u e,
  )
