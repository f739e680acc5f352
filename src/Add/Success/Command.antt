-- ===== src/Add/Success/Command.antt =====
-- When an ADD succeeds.
use rit_k8s_rdma_sriov_cni.Base.{ℕ, ◌≡◌, ap, ◌∙◌, String, true, none, List, []}
use rit_k8s_rdma_sriov_cni.Go.{ok, success, of_tried, wrapf, deferring, ◌>>◌, ◌orelse◌}
use rit_k8s_rdma_sriov_cni.Go.Laws.{bind_eq, orelse_eq, deferring_eq}
use rit_k8s_rdma_sriov_cni.Conf.{NetConf, load_conf}
use rit_k8s_rdma_sriov_cni.Host.{Host, Ns, InterfaceRequest, PfInfo}
use rit_k8s_rdma_sriov_cni.Mutex.{acquire_shm_mutex, release_shm_mutex}
use rit_k8s_rdma_sriov_cni.Pod.{pod_of_args, get_pod_requirements}
use rit_k8s_rdma_sriov_cni.Pod.Fatal.{then_ok}
use rit_k8s_rdma_sriov_cni.Add.{
  final_or_empty, after_interfaces, add_pod, set_ifname, add_placed, or_unplaced, add_locked,
  cmd_add,
}
use rit_k8s_rdma_sriov_cni.Add.Interfaces.{CmdArgs, Progress}
use rit_k8s_rdma_sriov_cni.Add.Success.{Adds}
use rit_k8s_rdma_sriov_cni.Add.Success.Enough.{add_interfaces-Adds_iff}

-- What is assumed of the calls that the command defers: they succeed.
pub record TidiesUp {W : Type 0} (h : Host W) : Type 0 where
  pub closing : (ns : Ns) (w : W) → (u : W) × (h.close_ns ns w ≡ (ok tt, u))
  pub resetting : (name value : String) (w : W) → (u : W) × (h.setenv name value w ≡ (ok tt, u))
  pub releasing : (file : String) (w : W) → (u : W) × (release_shm_mutex h.shm file w ≡ (ok tt, u))

module _ {W : Type 0} (h : Host W) (args : CmdArgs) (tidies : TidiesUp h) where
  abbrev pub first : NetConf → Progress
  first n = record { conf = n; deferred = []; final = none }

  add_pod_eq :
      (n : NetConf) (netns : Ns) (placements : List ℕ) (requests : List InterfaceRequest)
      (pfs : List PfInfo) (p : Progress) (w u x : W)
      → Adds h args netns requests pfs placements 0 (first n) w p u
      → h.print_result (final_or_empty p.final) u ≡ (ok tt, x)
      → add_pod h args n netns placements requests pfs w ≡ (ok tt, x)
  unfolding add_pod after_interfaces
  add_pod_eq n netns placements requests pfs p w u x adds prints =
      ap (λ r. after_interfaces h args netns r.0 r.1)
        ((add_interfaces-Adds_iff h args netns requests pfs placements 0 (first n) p w u).1 adds)
      ∙ prints

  add_placed-ok :
      (n : NetConf) (netns : Ns) (placements : List ℕ) (requests : List InterfaceRequest)
      (pfs : List PfInfo) (p : Progress) (w w1 w2 u x : W)
      → load_conf h.unmarshal_net_conf args.stdin_data ≡ success n
      → h.get_ns args.netns w ≡ (ok netns, w1)
      → set_ifname h args n w1 ≡ (ok tt, w2)
      → Adds h args netns requests pfs placements 0 (first n) w2 p u
      → h.print_result (final_or_empty p.final) u ≡ (ok tt, x)
      → (z : W) × (add_placed h args placements requests pfs w ≡ (ok tt, z))
  unfolding add_placed
  add_placed-ok n netns placements requests pfs p w w1 w2 u x loaded opened named adds prints =
      let adding = add_pod h args n netns placements requests pfs in
      let body =
        bind_eq (set_ifname h args n) (λ _. adding) w1 named
        ∙ add_pod_eq n netns placements requests pfs p w2 u x adds prints in
      let (y, reset) = tidies.resetting "CNI_IFNAME" (h.getenv "CNI_IFNAME" w1) x in
      let (z, closed) = tidies.closing netns y in
      (
        z,
        bind_eq
              (of_tried (load_conf h.unmarshal_net_conf args.stdin_data)
                orelse wrapf "failed to load netconf: %v" [])
              _ w
              (ap (λ t. (of_tried {W = W} t orelse wrapf "failed to load netconf: %v" []) w) loaded)
            ∙ bind_eq (h.get_ns args.netns orelse wrapf "failed to open netns %q: %v" []) _ w
                (orelse_eq (h.get_ns args.netns) _ w opened)
            ∙ deferring_eq (h.close_ns netns)
                (deferring (h.setenv "CNI_IFNAME" (h.getenv "CNI_IFNAME" w1))
                  (set_ifname h args n >> adding))
                w1
                (deferring_eq (h.setenv "CNI_IFNAME" (h.getenv "CNI_IFNAME" w1))
                  (set_ifname h args n >> adding) w1 body reset)
                closed,
      )

  -- An ADD succeeds if the mutex is acquired, the pod's requirements and the PFs are known, the pod
  -- fits on the PFs, the configuration can be loaded, the pod's namespace can be opened, and every
  -- interface is added and the result is printed. It is assumed that the deferred calls succeed: those
  -- that close the namespace, set the environment back and release the mutex.
  pub cmd_add-Adds :
      (file : String) (n : NetConf) (netns : Ns) (placements : List ℕ)
      (requests : List InterfaceRequest) (pfs : List PfInfo) (p : Progress)
      (w w1 w2 w3 w4 w5 u x : W)
      → acquire_shm_mutex h.shm w ≡ (ok file, w1)
      → get_pod_requirements h.cluster
          (pod_of_args args.cni_args).name
          (pod_of_args args.cni_args).ns
          w1
        ≡ (ok requests, w2)
      → h.query_node "127.0.0.1" "54005" 1500 w2 ≡ (ok pfs, w3)
      → h.place_pod requests pfs ≡ (placements, true)
      → load_conf h.unmarshal_net_conf args.stdin_data ≡ success n
      → h.get_ns args.netns w3 ≡ (ok netns, w4)
      → set_ifname h args n w4 ≡ (ok tt, w5)
      → Adds h args netns requests pfs placements 0 (first n) w5 p u
      → h.print_result (final_or_empty p.final) u ≡ (ok tt, x)
      → (z : W) × (cmd_add h args w ≡ (ok tt, z))
  unfolding cmd_add add_locked or_unplaced
  cmd_add-Adds file n netns placements requests pfs p w w1 w2 w3 w4 w5 u x acquired required queried
        placed loaded opened named adds prints =
      let (y, added) =
        add_placed-ok n netns placements requests pfs p w3 w4 w5 u x loaded opened named adds
          prints in
      let (z, released) = tidies.releasing file y in
      (
        z,
        then_ok h.cluster (acquire_shm_mutex h.shm) w w1 file _ acquired
            ∙ deferring_eq (release_shm_mutex h.shm file) (add_locked h args) w1
                (bind_eq
                    (get_pod_requirements h.cluster (pod_of_args args.cni_args).name
                      (pod_of_args args.cni_args).ns)
                    _ w1 required
                  ∙ then_ok h.cluster (h.query_node "127.0.0.1" "54005" 1500) w2 w3 pfs _ queried
                  ∙ ap (λ a. or_unplaced h args a requests pfs w3) placed
                  ∙ added)
                released,
      )
