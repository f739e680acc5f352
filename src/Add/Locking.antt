-- ===== src/Add/Locking.antt =====
-- An ADD that ends the process while it holds the mutex.
use rit_k8s_rdma_sriov_cni.Base.{
  subst, sym, true, ℕ, String, Bool, false, ◌≡◌, refl, ◌∙◌, List, [], ◌=?◌, if◌then◌else◌,
}
use rit_k8s_rdma_sriov_cni.Go.{
  Error, Outcome, ok, err, exit, panic, Run, Tried, success, failure, attempt, pure, fatal,
  of_tried,
}
use rit_k8s_rdma_sriov_cni.Go.Laws.{bind_eq, deferring_exit, Keeps, bind-Keeps, if_false}
use rit_k8s_rdma_sriov_cni.Host.{Host, Cluster, InterfaceRequest, PfInfo}
use rit_k8s_rdma_sriov_cni.Mutex.{acquire_shm_mutex, release_shm_mutex}
use rit_k8s_rdma_sriov_cni.Pod.{pod_of_args, or_fatal, get_pod_requirements}
use rit_k8s_rdma_sriov_cni.Pod.Fatal.{then_ok, then_exit}
use rit_k8s_rdma_sriov_cni.Add.{add_locked, cmd_add, or_unplaced}
use rit_k8s_rdma_sriov_cni.Add.Interfaces.{CmdArgs}

-- What is assumed of the calls to the cluster: they keep `Held`.
pub record ClusterKeeps {W : Type 0} (c : Cluster W) (Held : W → Type 0) : Type 0 where
  pub config : (url path : String) → Keeps Held (c.build_config_from_flags url path)
  pub client : (config : ℕ) → Keeps Held (c.new_for_config config)
  pub annotation :
      (client : ℕ) (ns name key : String) → Keeps Held (c.get_pod_annotation client ns name key)
  pub query : (address port : String) (timeout : ℕ) → Keeps Held (c.query_node address port timeout)

module _ {W : Type 0} (Held : W → Type 0) where
  of_tried-Keeps : {A : Type 0} (r : Tried Error A) → Keeps Held (of_tried r)
  of_tried-Keeps (success a) w p = p
  of_tried-Keeps (failure e) w p = p

module _ {W : Type 0} (h : Host W) (args : CmdArgs) (Held : W → Type 0)
    (keeps : ClusterKeeps h.cluster Held) where
  module _ {A : Type 0} where
    settled-Keeps :
        (r : Tried Error A)
        → Keeps {A = A} Held (elim r [ success a ↦ pure {E = Error} a | failure e ↦ fatal ])
    settled-Keeps (success a) w p = p
    settled-Keeps (failure e) w p = p

    or_fatal-Keeps : (m : Run W Error A) → Keeps Held m → Keeps Held (or_fatal h.cluster m)
    unfolding or_fatal
    or_fatal-Keeps m k = bind-Keeps Held (attempt m) _ k settled-Keeps

  unmarshalled-Keeps :
      (annotation : String)
      → Keeps Held (
          if annotation =? ""
          then pure {E = Error} []
          else or_fatal h.cluster (of_tried (h.unmarshal_requests annotation)))
  unmarshalled-Keeps annotation = by_test (annotation =? "")
    where
      by_test :
          (b : Bool)
          → Keeps Held (
              if b
              then pure {E = Error} []
              else or_fatal h.cluster (of_tried (h.unmarshal_requests annotation)))
      by_test true = λ w p. p
      by_test false =
          or_fatal-Keeps (of_tried (h.unmarshal_requests annotation))
            (of_tried-Keeps Held (h.unmarshal_requests annotation))

  get_pod_requirements-Keeps :
      (name ns : String) → Keeps Held (get_pod_requirements h.cluster name ns)
  unfolding get_pod_requirements
  get_pod_requirements-Keeps name ns =
      bind-Keeps Held
        (or_fatal h.cluster (h.build_config_from_flags "" "/etc/kubernetes/kubelet.conf")) _
        (or_fatal-Keeps (h.build_config_from_flags "" "/etc/kubernetes/kubelet.conf")
          (keeps.config "" "/etc/kubernetes/kubelet.conf"))
        λ config.
          bind-Keeps Held (or_fatal h.cluster (h.new_for_config config)) _
            (or_fatal-Keeps (h.new_for_config config) (keeps.client config))
            λ client.
              bind-Keeps Held
                (or_fatal h.cluster
                  (h.get_pod_annotation client ns name "rdma_interfaces_required"))
                _
                (or_fatal-Keeps (h.get_pod_annotation client ns name "rdma_interfaces_required")
                  (keeps.annotation client ns name "rdma_interfaces_required"))
                unmarshalled-Keeps

  -- The query for the PFs fails, or the pod does not fit on those that it returns.
  abbrev pub Rejects : List InterfaceRequest → Outcome Error (List PfInfo) → Type 0
  Rejects requests (ok pfs) = (h.place_pod requests pfs).1 ≡ false
  Rejects requests (err e) = Unit
  Rejects requests exit = ⊥
  Rejects requests panic = ⊥

  abbrev querying : Run W Error (List PfInfo)
  querying = h.query_node "127.0.0.1" "54005" 1500

  abbrev requiring : Run W Error (List InterfaceRequest)
  requiring = let pod = pod_of_args args.cni_args in get_pod_requirements h.cluster pod.name pod.ns

  locked-exits :
      (requests : List InterfaceRequest) (w1 w2 : W) (q : Outcome Error (List PfInfo))
      → requiring w1 ≡ (ok requests, w2)
      → (querying w2).0 ≡ q
      → Rejects requests q
      → add_locked h args w1 ≡ (exit, (querying w2).1)
  unfolding add_locked or_unplaced
  locked-exits requests w1 w2 (ok pfs) required answered rejects =
      bind_eq requiring _ w1 required
      ∙ then_ok h.cluster querying w2 (querying w2).1 pfs _ (λ i. (answered i, (querying w2).1))
      ∙ if_false (h.place_pod requests pfs).1 _ _ (querying w2).1 rejects
  locked-exits requests w1 w2 (err e) required answered rejects =
      bind_eq requiring _ w1 required
      ∙ then_exit h.cluster querying w2 (querying w2).1 e _ (λ i. (answered i, (querying w2).1))
  locked-exits requests w1 w2 exit required answered rejects = elim rejects [ ]
  locked-exits requests w1 w2 panic required answered rejects = elim rejects [ ]

  -- If the query for the PFs fails, or the pod does not fit on them, the ADD ends the process with
  -- the mutex held: whatever `Held` the acquisition has established, and the calls to the cluster
  -- keep, still holds then, so no deferred release has run.
  pub cmd_add-rejected :
      (mutex_file : String) (requests : List InterfaceRequest) (w w1 w2 : W)
      → acquire_shm_mutex h.shm w ≡ (ok mutex_file, w1)
      → Held w1
      → get_pod_requirements h.cluster
          (pod_of_args args.cni_args).name
          (pod_of_args args.cni_args).ns
          w1
        ≡ (ok requests, w2)
      → Rejects requests (h.query_node "127.0.0.1" "54005" 1500 w2).0
      → ((cmd_add h args w).0 ≡ exit) × Held (cmd_add h args w).1
  unfolding cmd_add
  cmd_add-rejected mutex_file requests w w1 w2 acquired held required rejects =
      subst (λ r. (r.0 ≡ exit) × Held r.1) (sym exited) (refl, kept)
    where
      exited : cmd_add h args w ≡ (exit, (querying w2).1)
      exited =
          then_ok h.cluster (acquire_shm_mutex h.shm) w w1 mutex_file _ acquired
          ∙ deferring_exit (release_shm_mutex h.shm mutex_file) (add_locked h args) w1
              (locked-exits requests w1 w2 (querying w2).0 required refl rejects)

      kept : Held (querying w2).1
      kept = keeps.query "127.0.0.1" "54005" 1500 w2 (
          subst (λ r. Held r.1) required
            (get_pod_requirements-Keeps (pod_of_args args.cni_args).name
              (pod_of_args args.cni_args).ns w1 held))
