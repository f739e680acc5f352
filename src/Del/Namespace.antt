-- ===== src/Del/Namespace.antt =====
-- The thread's namespace during DEL.
use rit_k8s_rdma_sriov_cni.Base.{◌≡◌, ap, subst, String, List, []}
use rit_k8s_rdma_sriov_cni.Go.{wrapf, ok, ◌orelse◌}
use rit_k8s_rdma_sriov_cni.Go.Laws.{by_parts_eq, orelse-ok_eq, deferring-ok_eq, Keeps}
use rit_k8s_rdma_sriov_cni.Host.{Host, Ns, Netns, NetInterface}
use rit_k8s_rdma_sriov_cni.Del.{list_interfaces, visit_namespace, get_namespace_interfaces}

-- What is assumed of package netns, where `Current` says which namespace the thread is in: `Set`
-- enters the namespace, and `Close` keeps the thread where it is.
pub record Enters {W : Type 0} (n : Netns W) (Current : Ns → W → Type 0) : Type 0 where
  pub setting : (ns : Ns) (w v : W) → n.set_netns ns w ≡ (ok tt, v) → Current ns v
  pub closing : (ns handle : Ns) → Keeps (Current ns) (n.close_netns handle)

module _ {W : Type 0} (h : Host W) (Current : Ns → W → Type 0) (law : Enters h.netns Current) where
  list_interfaces-back :
      (origns newns : Ns) (w v : W) (ifaces : List NetInterface)
      → list_interfaces h origns newns w ≡ (ok ifaces, v)
      → Current origns v
  unfolding list_interfaces
  list_interfaces-back origns newns w v ifaces e =
      by_parts_eq (h.set_netns newns orelse wrapf "error setting to ns namespace: %s" []) _ w e
        λ _ w1 _ e1.
          by_parts_eq (h.interfaces orelse wrapf "error getting network interfaces: %s" []) _ w1 e1
            λ _ w2 _ e2.
              by_parts_eq
                (h.set_netns origns orelse wrapf "error setting back to origin namespace: %s" []) _
                w2 e2
                λ _ w3 set e3. subst (Current origns) (ap (λ r. r.1) e3) (
                  law.setting origns w2 w3 (
                    orelse-ok_eq (h.set_netns origns)
                      (wrapf "error setting back to origin namespace: %s" []) w2 set))

  visit_namespace-back :
      (netns_name : String) (origns : Ns) (w v : W) (ifaces : List NetInterface)
      → visit_namespace h netns_name origns w ≡ (ok ifaces, v)
      → Current origns v
  unfolding visit_namespace
  visit_namespace-back netns_name origns w v ifaces e =
      by_parts_eq
        (h.get_netns_from_path netns_name orelse wrapf "error getting netns namespace: %s" []) _ w e
        λ newns w1 _ e1.
          let (u, listed, closed) =
            deferring-ok_eq (h.close_netns newns) (list_interfaces h origns newns) w1 e1 in
          subst (Current origns) closed
            (law.closing origns newns u (list_interfaces-back origns newns w1 u ifaces listed))

  -- A `getNamespaceInterfaces` that succeeds leaves the thread in the namespace that `Get` returned at
  -- its start.
  pub get_namespace_interfaces-back :
      (netns_name : String) (w v : W) (ifaces : List NetInterface)
      → get_namespace_interfaces h netns_name w ≡ (ok ifaces, v)
      → (origns : Ns) × ((h.get_netns w).0 ≡ ok origns) × Current origns v
  unfolding get_namespace_interfaces
  get_namespace_interfaces-back netns_name w v ifaces e =
      by_parts_eq (h.get_netns orelse wrapf "error getting origin namespace: %s" []) _ w e
        λ origns w1 got e1.
          let (u, visited, closed) =
            deferring-ok_eq (h.close_netns origns) (visit_namespace h netns_name origns) w1 e1 in
          (
            origns,
            ap (λ r. r.0)
                (orelse-ok_eq h.get_netns (wrapf "error getting origin namespace: %s" []) w got),
            subst (Current origns) closed (
                law.closing origns origns u
                  (visit_namespace-back netns_name origns w1 u ifaces visited)),
          )
