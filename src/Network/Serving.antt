-- ===== src/Network/Serving.antt =====
-- The command `cmdAdd` in the view of the devices, from the acquisition of the mutex on.
use rit_k8s_rdma_sriov_cni.Base.{
  ℕ, ◌≡◌, ◌≢◌, refl, sym, ap, ◌∙◌, subst, String, true, List, [], none,
}
use rit_k8s_rdma_sriov_cni.Go.{ok, wrapf, of_tried, deferring, ◌>>◌, ◌orelse◌}
use rit_k8s_rdma_sriov_cni.Go.Laws.{by_parts_eq, orelse-ok_eq, deferring-ok_eq}
use rit_k8s_rdma_sriov_cni.Conf.{NetConf, load_conf}
use rit_k8s_rdma_sriov_cni.Host.{Host, Ns, InterfaceRequest, PfInfo}
use rit_k8s_rdma_sriov_cni.Mutex.{acquire_shm_mutex, release_shm_mutex}
use rit_k8s_rdma_sriov_cni.Pod.{pod_of_args, or_fatal, get_pod_requirements}
use rit_k8s_rdma_sriov_cni.Pod.Fatal.{then_ok, or_fatal-back}
use rit_k8s_rdma_sriov_cni.Add.{add_pod, set_ifname, add_placed, add_locked, cmd_add}
use rit_k8s_rdma_sriov_cni.Add.Interfaces.{CmdArgs, Progress, add_interfaces}
use rit_k8s_rdma_sriov_cni.Network.{View, Same, Same-trans, quiet_at, Obeys}
use rit_k8s_rdma_sriov_cni.Network.Quiet.{orelse-IsQuiet, of_tried-IsQuiet}
use rit_k8s_rdma_sriov_cni.Network.Attending.{
  Attends, or_fatal-IsQuiet, get_pod_requirements-IsQuiet, set_ifname-IsQuiet,
  release_shm_mutex-IsQuiet,
}
use rit_k8s_rdma_sriov_cni.Add.Success.Exactly.{after_interfaces-ok, or_unplaced-ok}
use rit_k8s_rdma_sriov_cni.Network.Taken.{Populates, framed}
use rit_k8s_rdma_sriov_cni.Network.Taking.{Settles, add_interfaces-Populates}

module _ {W : Type 0} (h : Host W) (v : View W) (args : CmdArgs) where
  -- What an ADD does from `w` to `u`: the pod's requirements and the PFs are those that the cluster
  -- and the node answered, the pod fits on the PFs, and one device for each placement is taken.
  pub record Serves (w u : W) : Type 0 where
    pub requests : List InterfaceRequest
    pub pfs : List PfInfo
    pub placements : List ℕ
    pub netns : Ns
    pub asked : W
    pub before_opening : W
    pub opened : W
    pub required :
        get_pod_requirements h.cluster
          (pod_of_args args.cni_args).name
          (pod_of_args args.cni_args).ns
          w
        ≡ (ok requests, asked)
    pub queried : (h.query_node "127.0.0.1" "54005" 1500 asked).0 ≡ ok pfs
    pub placed : h.place_pod requests pfs ≡ (placements, true)
    pub opens : h.get_ns args.netns before_opening ≡ (ok netns, opened)
    pub populates : Populates h v netns pfs placements 0 w u

module _ {W : Type 0} (h : Host W) (v : View W) (law : Obeys h v) (attends : Attends h v)
    (settles : Settles h v) (args : CmdArgs) where
  -- With the pod placed, and its namespace open
  add_pod-Populates :
      (n : NetConf) (netns : Ns) (placements : List ℕ) (requests : List InterfaceRequest)
      (pfs : List PfInfo) (w u : W)
      → v.space netns ≢ v.current w
      → add_pod h args n netns placements requests pfs w ≡ (ok tt, u)
      → Populates h v netns pfs placements 0 w u
  unfolding add_pod
  add_pod-Populates n netns placements requests pfs w u apart e =
      let start : Progress = record { conf = n; deferred = []; final = none } in
      let ran = add_interfaces h args netns requests pfs placements 0 start w in
      let (p, is, prints) = after_interfaces-ok h args netns ran.0 ran.1 u e in
      framed h v netns pfs w w ran.1 u (refl, refl) (quiet_at v (attends.printing _) prints)
        (add_interfaces-Populates h v law settles args netns requests pfs placements 0 start p w
          ran.1 apart (λ i. (is i, ran.1)))

  add_placed-Populates :
      (placements : List ℕ) (requests : List InterfaceRequest) (pfs : List PfInfo) (w u : W)
      → ((ns : Ns) (y z : W) → h.get_ns args.netns y ≡ (ok ns, z) → v.space ns ≢ v.current w)
      → add_placed h args placements requests pfs w ≡ (ok tt, u)
      → (netns : Ns) × (y : W) × (z : W) × (h.get_ns args.netns y ≡ (ok netns, z))
        × Populates h v netns pfs placements 0 w u
  unfolding add_placed
  add_placed-Populates placements requests pfs w u apart e =
      by_parts_eq
        (of_tried (load_conf h.unmarshal_net_conf args.stdin_data)
          orelse wrapf "failed to load netconf: %v" [])
        _ w e
        λ n w1 loaded e1.
          by_parts_eq (h.get_ns args.netns orelse wrapf "failed to open netns %q: %v" []) _ w1 e1
            λ netns w2 opened e2.
              let adding = set_ifname h args n >> add_pod h args n netns placements requests pfs in
              let old = h.getenv "CNI_IFNAME" w2 in
              let (w3, inner, closed) =
                deferring-ok_eq (h.close_ns netns)
                  (λ x. deferring (h.setenv "CNI_IFNAME" (h.getenv "CNI_IFNAME" x)) adding x) w2
                  e2 in
              let (w5, body, reset) = deferring-ok_eq (h.setenv "CNI_IFNAME" old) adding w2 inner in
              by_parts_eq (set_ifname h args n) _ w2 body λ _ w6 set e6.
                let opens = orelse-ok_eq (h.get_ns args.netns) _ w1 opened in
                let until_open : Same v w w2 =
                  Same-trans v (quiet_at v (orelse-IsQuiet v _ (of_tried-IsQuiet v _)) loaded)
                    (quiet_at v (law.getting_ns args.netns) opens) in
                let before : Same v w w6 =
                  Same-trans v until_open
                    (quiet_at v (set_ifname-IsQuiet h v law attends args n) set) in
                let after : Same v w5 u =
                  Same-trans v
                    (subst (Same v w5) reset ((attends.setting_env "CNI_IFNAME" old).same w5))
                    (subst (Same v w3) closed ((law.closing_ns netns).same w3)) in
                (
                  netns,
                  w1,
                  w2,
                  opens,
                  framed h v netns pfs w w6 w5 u before after (
                      add_pod-Populates n netns placements requests pfs w6 w5
                        (λ x. apart netns w1 w2 opens (x ∙ before.1)) e6),
                )

  -- An ADD that succeeds, from the state `w` in which it has acquired the mutex: the pod's requirements
  -- and the PFs are those that the cluster and the node answered, the pod fits on the PFs, and the ADD
  -- takes one device for each placement to the pod's namespace, a device that the directory of a VF of
  -- the placement's PF lists, under the name `eth` and the interface's number, whatever the
  -- configuration's `if0name` is; the devices are all
  -- different, no other device changes its place or name, and the thread ends in its namespace. It is
  -- assumed that the host obeys the view, that the thread is not in the pod's namespace, that the
  -- directory of a VF lists no device or one, not called eth0, and that no call but those of `setupVF`
  -- changes a place or name.
  pub cmd_add-Serves :
      (file : String) (w0 w u : W)
      → acquire_shm_mutex h.shm w0 ≡ (ok file, w)
      → ((ns : Ns) (y z : W) → h.get_ns args.netns y ≡ (ok ns, z) → v.space ns ≢ v.current w)
      → cmd_add h args w0 ≡ (ok tt, u)
      → Serves h v args w u
  unfolding cmd_add add_locked
  cmd_add-Serves file w0 w u acquired apart e =
      let (x, locked, released) =
        deferring-ok_eq (release_shm_mutex h.shm file) (add_locked h args) w
          (sym (then_ok h.cluster (acquire_shm_mutex h.shm) w0 w file _ acquired) ∙ e) in
      let pod = pod_of_args args.cni_args in
      by_parts_eq (get_pod_requirements h.cluster pod.name pod.ns) _ w locked
        λ requests w1 required e1.
          by_parts_eq (or_fatal h.cluster (h.query_node "127.0.0.1" "54005" 1500)) _ w1 e1
            λ pfs w2 queried e2.
              let (placements, placed, e3) =
                or_unplaced-ok h args (h.place_pod requests pfs) requests pfs w2 x e2 in
              let before : Same v w w2 =
                Same-trans v
                  (quiet_at v (get_pod_requirements-IsQuiet h v law attends pod.name pod.ns)
                    required)
                  (quiet_at v
                    (or_fatal-IsQuiet h v law attends (attends.querying "127.0.0.1" "54005" 1500))
                    queried) in
              let (netns, y, z, opens, populates) =
                add_placed-Populates placements requests pfs w2 x
                  (λ ns y z got same. apart ns y z got (same ∙ before.1)) e3 in
              record {
                requests = requests;
                pfs = pfs;
                placements = placements;
                netns = netns;
                asked = w1;
                before_opening = y;
                opened = z;
                required = required;
                queried =
                    ap (λ r. r.0)
                      (or_fatal-back h.cluster (h.query_node "127.0.0.1" "54005" 1500) w1 w2 pfs w2
                        queried);
                placed = placed;
                opens = opens;
                populates =
                    framed h v netns pfs w w2 x u before
                      (subst (Same v x) released
                        ((release_shm_mutex-IsQuiet h v law attends file).same x))
                      populates;
              }
