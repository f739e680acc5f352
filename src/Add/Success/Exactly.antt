-- ===== src/Add/Success/Exactly.antt =====
-- When exactly an ADD succeeds.
use rit_k8s_rdma_sriov_cni.Base.{
  ℕ, ◌≡◌, ◌↔◌, refl, sym, ap, subst, String, Bool, true, false, none, List, [],
}
use rit_k8s_rdma_sriov_cni.Go.{
  Outcome, ok, err, exit, panic, success, failure, Tried, of_tried, wrapf, deferring, ◌>>◌,
  ◌orelse◌,
}
use rit_k8s_rdma_sriov_cni.Go.Laws.{by_parts_eq, orelse-ok_eq, deferring-ok_eq}
use rit_k8s_rdma_sriov_cni.Conf.{NetConf, load_conf}
use rit_k8s_rdma_sriov_cni.Host.{Host, Ns, InterfaceRequest, PfInfo}
use rit_k8s_rdma_sriov_cni.Mutex.{acquire_shm_mutex, release_shm_mutex}
use rit_k8s_rdma_sriov_cni.Pod.{pod_of_args, or_fatal, get_pod_requirements}
use rit_k8s_rdma_sriov_cni.Pod.Fatal.{or_fatal-back}
use rit_k8s_rdma_sriov_cni.Add.{
  final_or_empty, after_interfaces, add_pod, set_ifname, add_placed, or_unplaced, add_locked,
  cmd_add,
}
use rit_k8s_rdma_sriov_cni.Add.Interfaces.{
  CmdArgs, Ending, Progress, add_interfaces, run_deferred_calls,
}
use rit_k8s_rdma_sriov_cni.Add.Success.{Adds}
use rit_k8s_rdma_sriov_cni.Add.Success.Enough.{add_interfaces-Adds_iff}
use rit_k8s_rdma_sriov_cni.Add.Success.Command.{TidiesUp, cmd_add-Adds}

module _ {W : Type 0} (h : Host W) (args : CmdArgs) where
  pub after_interfaces-ok :
      (netns : Ns) (r : Outcome Ending Progress) (w u : W)
      → after_interfaces h args netns r w ≡ (ok tt, u)
      → (p : Progress) × (r ≡ ok p) × (h.print_result (final_or_empty p.final) w ≡ (ok tt, u))
  unfolding after_interfaces
  after_interfaces-ok netns (ok p) w u e = (p, refl, e)
  after_interfaces-ok netns (err x) w u e =
      by_parts_eq (run_deferred_calls h args netns x.progress.conf x.err_var x.progress.deferred) _
        w e λ _ y _ e1. cc (ap (λ r. r.0) e1)
  after_interfaces-ok netns exit w u e = cc (ap (λ r. r.0) e)
  after_interfaces-ok netns panic w u e = cc (ap (λ r. r.0) e)

  pub or_unplaced-ok :
      (r : List ℕ × Bool) (requests : List InterfaceRequest) (pfs : List PfInfo) (w u : W)
      → or_unplaced h args r requests pfs w ≡ (ok tt, u)
      → (placements : List ℕ) × (r ≡ (placements, true))
        × (add_placed h args placements requests pfs w ≡ (ok tt, u))
  unfolding or_unplaced
  or_unplaced-ok (placements, true) requests pfs w u e = (placements, refl, e)
  or_unplaced-ok (placements, false) requests pfs w u e = cc (ap (λ r. r.0) e)

  -- The calls of an ADD after the pod is placed, but those that it defers, succeed one after the other.
  pub record Adding (placements : List ℕ) (requests : List InterfaceRequest) (pfs : List PfInfo)
      (queried : W) : Type 0 where
    pub conf : NetConf
    pub netns : Ns
    pub progress : Progress
    pub opened : W
    pub named : W
    pub added : W
    pub printed : W
    pub loads : load_conf h.unmarshal_net_conf args.stdin_data ≡ success conf
    pub opens : h.get_ns args.netns queried ≡ (ok netns, opened)
    pub names : set_ifname h args conf opened ≡ (ok tt, named)
    pub adds :
        Adds h args netns requests pfs placements 0
          (record { conf = conf; deferred = []; final = none })
          named
          progress
          added
    pub prints : h.print_result (final_or_empty progress.final) added ≡ (ok tt, printed)

  -- All of them: the mutex is acquired, the pod's requirements and the PFs are known, and the pod fits
  -- on the PFs, at the placements at which the interfaces are added.
  pub record Succeeds (start : W) : Type 0 where
    pub file : String
    pub requests : List InterfaceRequest
    pub pfs : List PfInfo
    pub placements : List ℕ
    pub held : W
    pub asked : W
    pub queried : W
    pub acquires : acquire_shm_mutex h.shm start ≡ (ok file, held)
    pub requires :
        get_pod_requirements h.cluster
          (pod_of_args args.cni_args).name
          (pod_of_args args.cni_args).ns
          held
        ≡ (ok requests, asked)
    pub queries : h.query_node "127.0.0.1" "54005" 1500 asked ≡ (ok pfs, queried)
    pub fits : h.place_pod requests pfs ≡ (placements, true)
    pub adding : Adding placements requests pfs queried

  of_tried-success :
      {E A : Type 0} (t : Tried E A) (a : A) (w u : W)
      → of_tried t w ≡ (ok a, u)
      → (t ≡ success a) × (w ≡ u)
  of_tried-success (success b) a w u e = (ap success (cc (ap (λ r. r.0) e)), ap (λ r. r.1) e)
  of_tried-success (failure x) a w u e = cc (ap (λ r. r.0) e)

  add_placed-Adding :
      (placements : List ℕ) (requests : List InterfaceRequest) (pfs : List PfInfo) (w u : W)
      → add_placed h args placements requests pfs w ≡ (ok tt, u)
      → Adding placements requests pfs w
  unfolding add_placed add_pod
  add_placed-Adding placements requests pfs w u e =
      by_parts_eq
        (of_tried (load_conf h.unmarshal_net_conf args.stdin_data)
          orelse wrapf "failed to load netconf: %v" [])
        _ w e
        λ n w1 ran e1.
          by_parts_eq (h.get_ns args.netns orelse wrapf "failed to open netns %q: %v" []) _ w1 e1
            λ netns w2 opened e2.
              let (loads, same) =
                of_tried-success (load_conf h.unmarshal_net_conf args.stdin_data) n w w1 (
                  orelse-ok_eq (of_tried (load_conf h.unmarshal_net_conf args.stdin_data)) _ w
                    ran) in
              let adding = set_ifname h args n >> add_pod h args n netns placements requests pfs in
              let old = h.getenv "CNI_IFNAME" w2 in
              let (w3, inner, _) =
                deferring-ok_eq (h.close_ns netns)
                  (λ x. deferring (h.setenv "CNI_IFNAME" (h.getenv "CNI_IFNAME" x)) adding x) w2
                  e2 in
              let (w5, body, _) = deferring-ok_eq (h.setenv "CNI_IFNAME" old) adding w2 inner in
              by_parts_eq (set_ifname h args n) _ w2 body λ _ w6 names e6.
                let first : Progress = record { conf = n; deferred = []; final = none } in
                let ran = add_interfaces h args netns requests pfs placements 0 first w6 in
                let (p, is, prints) = after_interfaces-ok netns ran.0 ran.1 w5 e6 in
                record {
                  conf = n;
                  netns = netns;
                  progress = p;
                  opened = w2;
                  named = w6;
                  added = ran.1;
                  printed = w5;
                  loads = loads;
                  opens =
                      subst (λ x. h.get_ns args.netns x ≡ (ok netns, w2)) (sym same)
                        (orelse-ok_eq (h.get_ns args.netns) _ w1 opened);
                  names = names;
                  adds =
                      (add_interfaces-Adds_iff h args netns requests pfs placements 0 first p w6
                          ran.1).0
                        (λ i. (is i, ran.1));
                  prints = prints;
                }

  cmd_add-Succeeds : (w u : W) → cmd_add h args w ≡ (ok tt, u) → Succeeds w
  unfolding cmd_add add_locked
  cmd_add-Succeeds w u e =
      by_parts_eq (or_fatal h.cluster (acquire_shm_mutex h.shm)) _ w e λ file w1 got e1.
        let (x, locked, _) =
          deferring-ok_eq (release_shm_mutex h.shm file) (add_locked h args) w1 e1 in
        let pod = pod_of_args args.cni_args in
        by_parts_eq (get_pod_requirements h.cluster pod.name pod.ns) _ w1 locked
          λ requests w2 requires e2.
            by_parts_eq (or_fatal h.cluster (h.query_node "127.0.0.1" "54005" 1500)) _ w2 e2
              λ pfs w3 queried e3.
                let (placements, fits, e4) =
                  or_unplaced-ok (h.place_pod requests pfs) requests pfs w3 x e3 in
                record {
                  file = file;
                  requests = requests;
                  pfs = pfs;
                  placements = placements;
                  held = w1;
                  asked = w2;
                  queried = w3;
                  acquires = or_fatal-back h.cluster (acquire_shm_mutex h.shm) w w1 file w1 got;
                  requires = requires;
                  queries =
                      or_fatal-back h.cluster (h.query_node "127.0.0.1" "54005" 1500) w2 w3 pfs w3
                        queried;
                  fits = fits;
                  adding = add_placed-Adding placements requests pfs w3 x e4;
                }

  -- An ADD succeeds exactly if the mutex is acquired, the pod's requirements and the PFs are known, the
  -- pod fits on the PFs, the configuration can be loaded, the pod's namespace can be opened, the
  -- environment can be set, every interface is added at its placement, and the result is printed, each
  -- call from the state that the one before has left. It is assumed that the deferred calls succeed:
  -- those that close the namespace, set the environment back and release the mutex.
  pub cmd_add-Succeeds_iff :
      TidiesUp h → (w : W) → ((z : W) × (cmd_add h args w ≡ (ok tt, z))) ↔ Succeeds w
  cmd_add-Succeeds_iff tidies w = (
    λ (z, e). cmd_add-Succeeds w z e,
    λ s.
        let a = s.adding in
        cmd_add-Adds h args tidies s.file a.conf a.netns s.placements s.requests s.pfs a.progress w
          s.held s.asked s.queried a.opened a.named a.added a.printed s.acquires s.requires
          s.queries s.fits a.loads a.opens a.names a.adds a.prints,
  )
