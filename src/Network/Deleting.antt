-- ===== src/Network/Deleting.antt =====
-- `cmdDel` leaves the devices of other namespaces alone, however it ends.
use rit_k8s_rdma_sriov_cni.Base.{ℕ, ◌≡◌, refl, sym, ap, ◌∙◌, subst, String, List, [], ◌∷◌, ◌=?◌}
use rit_k8s_rdma_sriov_cni.Go.{
  Error, ok, wrapf, success, pure, of_tried, deferring, ◌>>=◌, ◌orelse◌,
}
use rit_k8s_rdma_sriov_cni.Conf.{NetConf, load_conf}
use rit_k8s_rdma_sriov_cni.Host.{Host, Ns, NetInterface, PfInfo}
use rit_k8s_rdma_sriov_cni.Mutex.{acquire_shm_mutex, release_shm_mutex}
use rit_k8s_rdma_sriov_cni.Pod.{or_fatal}
use rit_k8s_rdma_sriov_cni.Pod.Fatal.{then_ok}
use rit_k8s_rdma_sriov_cni.Add.Interfaces.{CmdArgs}
use rit_k8s_rdma_sriov_cni.Del.{
  list_interfaces, visit_namespace, get_namespace_interfaces, is_pod_interface, release_interface,
  release_interfaces, release_pod, del_locked, cmd_del,
}
use rit_k8s_rdma_sriov_cni.Network.{View, Devices, Obeys}
use rit_k8s_rdma_sriov_cni.Network.Confining.{Spares}
use rit_k8s_rdma_sriov_cni.Network.Guarding.{Foreign}
use rit_k8s_rdma_sriov_cni.Network.Sheltering.{
  Shelters, IsSheltered, still_call, bind-IsSheltered, orelse-IsSheltered, attempt-IsSheltered,
  deferring-IsSheltered, if-IsSheltered,
}
use rit_k8s_rdma_sriov_cni.Network.Leaving.{release_vf_custom-IsSheltered}

module _ {W : Type 0} (h : Host W) (v : View W) (law : Obeys h v) (spares : Spares h v)
    (shelters : Shelters h v) (args : CmdArgs) (pod : ℕ) (start : Devices) where
  list_interfaces-IsSheltered :
      (origns newns : Ns) → IsSheltered v pod start (list_interfaces h origns newns)
  unfolding list_interfaces
  list_interfaces-IsSheltered origns newns =
      bind-IsSheltered v pod start
        {m = h.set_netns newns orelse wrapf "error setting to ns namespace: %s" []}
        (orelse-IsSheltered v pod start _ (still_call v pod start (shelters.entering_netns newns)))
        λ _.
          bind-IsSheltered v pod start
            {m = h.interfaces orelse wrapf "error getting network interfaces: %s" []}
            (orelse-IsSheltered v pod start _ (still_call v pod start shelters.listing_interfaces))
            λ ifaces.
              bind-IsSheltered v pod start
                {m = h.set_netns origns
                  orelse wrapf "error setting back to origin namespace: %s" []}
                (orelse-IsSheltered v pod start _
                  (still_call v pod start (shelters.entering_netns origns)))
                λ _. still_call v pod start {m = pure {W = W} {E = Error} ifaces} λ w. refl

  visit_namespace-IsSheltered :
      (path : String) (origns : Ns) → IsSheltered v pod start (visit_namespace h path origns)
  unfolding visit_namespace
  visit_namespace-IsSheltered path origns =
      bind-IsSheltered v pod start
        (orelse-IsSheltered v pod start _ (still_call v pod start (shelters.opening_netns path)))
        λ newns.
          deferring-IsSheltered v pod start (still_call v pod start (shelters.closing_netns newns))
            (list_interfaces-IsSheltered origns newns)

  get_namespace_interfaces-IsSheltered :
      (path : String) → IsSheltered v pod start (get_namespace_interfaces h path)
  unfolding get_namespace_interfaces
  get_namespace_interfaces-IsSheltered path =
      bind-IsSheltered v pod start
        (orelse-IsSheltered v pod start _ (still_call v pod start shelters.getting_netns))
        λ origns.
          deferring-IsSheltered v pod start (still_call v pod start (shelters.closing_netns origns))
            (visit_namespace-IsSheltered path origns)

  module _
      (in_pod : (ns : Ns) (y z : W) → h.get_ns args.netns y ≡ (ok ns, z) → v.space ns ≡ pod) where
    release_interfaces-IsSheltered :
        (n : NetConf) (pfs : List PfInfo) (interfaces : List NetInterface)
        → IsSheltered v pod start (release_interfaces h n args pfs interfaces)
    unfolding release_interfaces release_interface
    release_interfaces-IsSheltered n pfs [] = still_call v pod start λ w. refl
    release_interfaces-IsSheltered n pfs (intf ∷ rest) =
        bind-IsSheltered v pod start
          (if-IsSheltered v pod start (is_pod_interface intf.name)
            (bind-IsSheltered v pod start
              (attempt-IsSheltered v pod start (
                release_vf_custom-IsSheltered h v law spares shelters args pod start in_pod n intf
                  pfs))
              λ _. still_call v pod start λ w. refl)
            (still_call v pod start λ w. refl))
          λ n'. release_interfaces-IsSheltered n' pfs rest

    del_locked-IsSheltered : (n : NetConf) → IsSheltered v pod start (del_locked h n args)
    unfolding del_locked release_pod
    del_locked-IsSheltered n =
        bind-IsSheltered v pod start
          (if-IsSheltered v pod start (n.ipam_type =? "") (still_call v pod start λ w. refl)
            (still_call v pod start (shelters.returning n.ipam_type args.stdin_data)))
          λ _. if-IsSheltered v pod start (args.netns =? "") (still_call v pod start λ w. refl) (
            bind-IsSheltered v pod start
              (orelse-IsSheltered v pod start _ (get_namespace_interfaces-IsSheltered args.netns))
              λ interfaces.
                bind-IsSheltered v pod start
                  (attempt-IsSheltered v pod start
                    (still_call v pod start (shelters.querying _ _ _)))
                  λ pfs. release_interfaces-IsSheltered n _ interfaces)

    release_shm_mutex-IsSheltered :
        (file : String) → IsSheltered v pod start (release_shm_mutex h.shm file)
    unfolding release_shm_mutex
    release_shm_mutex-IsSheltered file =
        deferring-IsSheltered v pod start {d = h.close_file file}
          {m = h.unlink file orelse wrapf "Failed to release shared memory mutex: %s" []}
          (still_call v pod start (shelters.closing_file file))
          (orelse-IsSheltered v pod start _ (still_call v pod start (shelters.unlinking file)))

    guarded-IsSheltered :
        (n : NetConf) (file : String)
        → IsSheltered v pod start (deferring (release_shm_mutex h.shm file) (del_locked h n args))
    guarded-IsSheltered n file =
        deferring-IsSheltered v pod start (release_shm_mutex-IsSheltered file)
          (del_locked-IsSheltered n)

module _ {W : Type 0} (h : Host W) (v : View W) (law : Obeys h v) (spares : Spares h v)
    (shelters : Shelters h v) where
  -- A DEL whose configuration can be loaded, from the state in which it has acquired the mutex, however
  -- it ends: every device that is not in the pod's namespace keeps its namespace and its name. It is
  -- assumed that the host obeys the view, that a failed move or change of name changes no other device
  -- and a failed `Do` has run its function in the namespace or not at all, that the path of the pod's
  -- namespace is always opened as that namespace, and that no call but those that release a VF changes
  -- a device's place or name.
  pub cmd_del-Foreign :
      (args : CmdArgs) (n : NetConf) (file : String) (pod : ℕ) (w0 w : W)
      → load_conf h.unmarshal_net_conf args.stdin_data ≡ success n
      → acquire_shm_mutex h.shm w0 ≡ (ok file, w)
      → ((ns : Ns) (y z : W) → h.get_ns args.netns y ≡ (ok ns, z) → v.space ns ≡ pod)
      → Foreign pod (v.devices w) (v.devices (cmd_del h args w0).1)
  unfolding cmd_del
  cmd_del-Foreign args n file pod w0 w loaded acquired in_pod =
      let command =
        ap
          (λ t.
            (of_tried t >>= λ c. or_fatal h.cluster (acquire_shm_mutex h.shm) >>= λ f.
            deferring (release_shm_mutex h.shm f) (del_locked h c args))
              w0)
          loaded
        ∙ then_ok h.cluster (acquire_shm_mutex h.shm) w0 w file _ acquired in
      subst (λ r. Foreign pod (v.devices w) (v.devices r.1)) (sym command)
        ((guarded-IsSheltered h v law spares shelters args pod (v.devices w) in_pod n file).keeps w
          λ j out. (refl, refl))
