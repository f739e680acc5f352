-- ===== src/Network/Containing.antt =====
-- `cmdAdd` leaves the devices of other namespaces than the thread's and the pod's alone, however it
-- ends.
use rit_k8s_rdma_sriov_cni.Base.{
  ℕ, ◌≡◌, refl, sym, ap, ◌∙◌, subst, String, Bool, true, false, List, [], none,
}
use rit_k8s_rdma_sriov_cni.Go.{Error, Outcome, ok, err, exit, panic, success, fail, of_tried}
use rit_k8s_rdma_sriov_cni.Go.Laws.{orelse-ok_eq}
use rit_k8s_rdma_sriov_cni.Conf.{NetConf, load_conf}
use rit_k8s_rdma_sriov_cni.Host.{Host, Ns, InterfaceRequest, PfInfo}
use rit_k8s_rdma_sriov_cni.Mutex.{acquire_shm_mutex}
use rit_k8s_rdma_sriov_cni.Pod.{pod_of_args}
use rit_k8s_rdma_sriov_cni.Pod.Fatal.{then_ok}
use rit_k8s_rdma_sriov_cni.Add.{
  final_or_empty, after_interfaces, add_pod, add_placed, or_unplaced, add_locked, cmd_add,
}
use rit_k8s_rdma_sriov_cni.Add.Interfaces.{CmdArgs, Ending, Progress, add_interfaces}
use rit_k8s_rdma_sriov_cni.Network.{View, Devices, Obeys}
use rit_k8s_rdma_sriov_cni.Network.Quiet.{orelse-IsQuiet, of_tried-IsQuiet}
use rit_k8s_rdma_sriov_cni.Network.Attending.{
  Attends, or_fatal-IsQuiet, get_pod_requirements-IsQuiet, set_ifname-IsQuiet,
  release_shm_mutex-IsQuiet,
}
use rit_k8s_rdma_sriov_cni.Network.Confining.{Spares}
use rit_k8s_rdma_sriov_cni.Network.Taking.{Settles}
use rit_k8s_rdma_sriov_cni.Network.Guarding.{Foreign, Foreign-same}
use rit_k8s_rdma_sriov_cni.Network.Sheltering.{Shelters, IsStill, still_call, bind-IsSheltered}
use rit_k8s_rdma_sriov_cni.Network.Enclosing.{
  Beyond, Foreign-Beyond, Contained, Starts-Contained, IsContained, after_quiet,
  deferring-IsContained,
}
use rit_k8s_rdma_sriov_cni.Network.Adding.{add_interfaces-Foreign}
use rit_k8s_rdma_sriov_cni.Network.Rolling.{run_deferred_calls-IsSheltered}

module _ {W : Type 0} (h : Host W) (v : View W) (law : Obeys h v) (spares : Spares h v)
    (settles : Settles h v) (attends : Attends h v) (shelters : Shelters h v)
    (printing_nil : IsStill v h.print_nil_result) (args : CmdArgs) (n : NetConf)
    (netdev : n.dpdk_mode ≡ false) (pod : ℕ) where
  module _ (home : ℕ) (start : Devices) where
    after_interfaces-Contained :
        (netns : Ns) (r : Outcome Ending Progress) (w : W)
        → v.space netns ≡ pod
        → Foreign home start (v.devices w)
        → Contained v home pod start (after_interfaces h args netns r w).1
    unfolding after_interfaces
    after_interfaces-Contained netns (ok p) w there f =
        Foreign-Beyond f (
          Foreign-same (λ j _. (refl, refl)) ((attends.printing (final_or_empty p.final)).same w).0)
    after_interfaces-Contained netns (err e) w there f = Foreign-Beyond f (
        (bind-IsSheltered v pod (v.devices w)
            (run_deferred_calls-IsSheltered h v law spares shelters args pod (v.devices w) netns
              e.progress.conf e.err_var e.progress.deferred there)
            λ _.
              still_call v pod (v.devices w) {m = fail {W = W} {A = Unit} e.returned}
                λ u. refl).keeps
          w λ j _. (refl, refl))
    after_interfaces-Contained netns exit w there f = Foreign-Beyond f λ j _. (refl, refl)
    after_interfaces-Contained netns panic w there f = Foreign-Beyond f λ j _. (refl, refl)

    add_pod-IsContained :
        (netns : Ns) (placements : List ℕ) (requests : List InterfaceRequest) (pfs : List PfInfo)
        → v.space netns ≡ pod
        → IsContained v home pod start (add_pod h args n netns placements requests pfs)
    unfolding add_pod
    add_pod-IsContained netns placements requests pfs there = record {
      ends = λ w s.
          let first : Progress = record { conf = n; deferred = []; final = none } in
          let ran = add_interfaces h args netns requests pfs placements 0 first w in
          after_interfaces-Contained netns ran.0 ran.1 there (
            subst (λ d. Foreign home d (v.devices ran.1)) s.0
              (subst (λ k. Foreign k (v.devices w) (v.devices ran.1)) s.1
                (add_interfaces-Foreign h v law spares settles printing_nil args netns requests pfs
                  placements 0 first w netdev)));
    }

    add_placed-IsContained :
        (placements : List ℕ) (requests : List InterfaceRequest) (pfs : List PfInfo)
        → load_conf h.unmarshal_net_conf args.stdin_data ≡ success n
        → ((ns : Ns) (y z : W) → h.get_ns args.netns y ≡ (ok ns, z) → v.space ns ≡ pod)
        → IsContained v home pod start (add_placed h args placements requests pfs)
    unfolding add_placed
    add_placed-IsContained placements requests pfs loaded in_pod =
        after_quiet v home pod start
          (orelse-IsQuiet v _ (of_tried-IsQuiet v (load_conf h.unmarshal_net_conf args.stdin_data)))
          λ c w1 u1 e1.
            after_quiet v home pod start (orelse-IsQuiet v _ (law.getting_ns args.netns))
              λ netns w2 u2 e2.
                let there = in_pod netns w2 u2 (orelse-ok_eq (h.get_ns args.netns) _ w2 e2) in
                let ran =
                  orelse-ok_eq (of_tried (load_conf h.unmarshal_net_conf args.stdin_data)) _ w1
                    e1 in
                let is_loaded : ◌≡◌ {A = Outcome Error NetConf × W} (ok n, w1) (ok c, u1) =
                  ap (λ t. of_tried t w1) (sym loaded) ∙ ran in
                let same : n ≡ c = cc (ap (λ r. r.0) is_loaded) in
                deferring-IsContained v home pod start (law.closing_ns netns) (
                  after_quiet v home pod start {E = Error}
                    {m = λ w. (ok (h.getenv "CNI_IFNAME" w), w)}
                    (record { same = λ w. (refl, refl) })
                    λ old _ _ _.
                      deferring-IsContained v home pod start (attends.setting_env "CNI_IFNAME" old)
                        (after_quiet v home pod start (set_ifname-IsQuiet h v law attends args c)
                          λ _ _ _ _.
                            subst
                              (λ c.
                                IsContained v home pod start
                                  (add_pod h args c netns placements requests pfs))
                              same (add_pod-IsContained netns placements requests pfs there)))

    or_unplaced-IsContained :
        (r : List ℕ × Bool) (requests : List InterfaceRequest) (pfs : List PfInfo)
        → load_conf h.unmarshal_net_conf args.stdin_data ≡ success n
        → ((ns : Ns) (y z : W) → h.get_ns args.netns y ≡ (ok ns, z) → v.space ns ≡ pod)
        → IsContained v home pod start (or_unplaced h args r requests pfs)
    unfolding or_unplaced
    or_unplaced-IsContained (placements, true) requests pfs loaded in_pod =
        add_placed-IsContained placements requests pfs loaded in_pod
    or_unplaced-IsContained (placements, false) requests pfs loaded in_pod = record {
      ends = λ w s. Starts-Contained v home pod start s.0;
    }

    add_locked-IsContained :
        load_conf h.unmarshal_net_conf args.stdin_data ≡ success n
        → ((ns : Ns) (y z : W) → h.get_ns args.netns y ≡ (ok ns, z) → v.space ns ≡ pod)
        → IsContained v home pod start (add_locked h args)
    unfolding add_locked
    add_locked-IsContained loaded in_pod =
        after_quiet v home pod start
          (get_pod_requirements-IsQuiet h v law attends (pod_of_args args.cni_args).name
            (pod_of_args args.cni_args).ns)
          λ requests _ _ _.
            after_quiet v home pod start
              (or_fatal-IsQuiet h v law attends (attends.querying "127.0.0.1" "54005" 1500))
              λ pfs _ _ _.
                or_unplaced-IsContained (h.place_pod requests pfs) requests pfs loaded in_pod

  -- An ADD whose configuration can be loaded and is not in DPDK mode, from the state in which it has
  -- acquired the mutex, whether it succeeds, fails, with the rollbacks of what it has set up, panics or
  -- ends the process: every device that is neither in the thread's namespace nor in the pod's keeps its
  -- namespace and its name. It is assumed that the host obeys the view, that a failed move or change of
  -- name changes no other device and a failed `Do` has run its function in the namespace or not at all,
  -- that the directory of a VF lists no device or one, not called eth0, that the path of the pod's
  -- namespace is always opened as that namespace, and that no call but those that set up or release a
  -- VF changes a place or name.
  pub cmd_add-Beyond :
      (file : String) (w0 w : W)
      → load_conf h.unmarshal_net_conf args.stdin_data ≡ success n
      → acquire_shm_mutex h.shm w0 ≡ (ok file, w)
      → ((ns : Ns) (y z : W) → h.get_ns args.netns y ≡ (ok ns, z) → v.space ns ≡ pod)
      → Beyond (v.current w) pod (v.devices w) (v.devices (cmd_add h args w0).1)
  unfolding cmd_add
  cmd_add-Beyond file w0 w loaded acquired in_pod =
      subst (λ r. Beyond (v.current w) pod (v.devices w) (v.devices r.1))
        (sym (then_ok h.cluster (acquire_shm_mutex h.shm) w0 w file _ acquired))
        ((deferring-IsContained v (v.current w) pod (v.devices w)
            (release_shm_mutex-IsQuiet h v law attends file)
            (add_locked-IsContained (v.current w) (v.devices w) loaded in_pod)).ends
          w (refl, refl))
