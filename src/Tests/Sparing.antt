-- ===== src/Tests/Sparing.antt =====
-- The theorems on commands that may fail, on the host in memory.
use rit_k8s_rdma_sriov_cni.Base.{
  ℕ, zero, suc, ◌≡◌, refl, sym, ap, subst, inr, String, true, none, [], ◌∷◌,
}
use rit_k8s_rdma_sriov_cni.Go.{ok}
use rit_k8s_rdma_sriov_cni.Host.{Link, Ns}
use rit_k8s_rdma_sriov_cni.Setup.{setup_vf}
use rit_k8s_rdma_sriov_cni.Network.{Only}
use rit_k8s_rdma_sriov_cni.Network.Confining.{Spares}
use rit_k8s_rdma_sriov_cni.Network.Sparing.{ConfinedTo, setup_vf-ConfinedTo}
use rit_k8s_rdma_sriov_cni.Add.Interfaces.{add_interfaces}
use rit_k8s_rdma_sriov_cni.Add.{cmd_add}
use rit_k8s_rdma_sriov_cni.Network.Enclosing.{Beyond}
use rit_k8s_rdma_sriov_cni.Network.Containing.{cmd_add-Beyond}
use rit_k8s_rdma_sriov_cni.Network.Adding.{add_interfaces-Foreign}
use rit_k8s_rdma_sriov_cni.Tests.Machine.{World, conf, request, pf}
use rit_k8s_rdma_sriov_cni.Tests.Mover.{
  named, moved, inside, mover, view, where_is, called, index_of,
}
use rit_k8s_rdma_sriov_cni.Tests.Obeying.{mover-Obeys}
use rit_k8s_rdma_sriov_cni.Tests.Moving.{before, bound}
use rit_k8s_rdma_sriov_cni.Tests.Commands.{args}
use rit_k8s_rdma_sriov_cni.Tests.Restoring.{mover-Settles, mover-Attends}
use rit_k8s_rdma_sriov_cni.Conf.{load_conf, checked, with_defaults, is_empty_dpdk}
use rit_k8s_rdma_sriov_cni.Mutex.{mutex_name, acquire_shm_mutex, attempts, after_attempt}
use rit_k8s_rdma_sriov_cni.Del.{cmd_del}
use rit_k8s_rdma_sriov_cni.Network.Guarding.{Foreign}
use rit_k8s_rdma_sriov_cni.Network.Sheltering.{Shelters}
use rit_k8s_rdma_sriov_cni.Network.Deleting.{cmd_del-Foreign}

-- Only the VF's device ever changes.
only_vf : (w u : World) → Only 0 (view.devices w) (view.devices u)
unfolding where_is called
only_vf w u zero ne = absurd (ne refl)
only_vf w u (suc zero) ne = (refl, refl)
only_vf w u (suc (suc k)) ne = (refl, refl)

named-Only :
    (l : Link) (new : String) (id : ℕ) (w : World)
    → index_of id ≡ l.index
    → Only id (view.devices w) (view.devices (named l new w).1)
unfolding named index_of
named-Only l new zero w e = only_vf w _
named-Only l new (suc k) w e =
    subst (λ i. Only (suc k) (view.devices w) (view.devices (named (record { index = i }) new w).1))
      e (λ j ne. (refl, refl))

moved-Only :
    (l : Link) (ns : Ns) (id : ℕ) (w : World)
    → index_of id ≡ l.index
    → Only id (view.devices w) (view.devices (moved l ns w).1)
unfolding moved index_of
moved-Only l ns zero w e = only_vf w _
moved-Only l ns (suc k) w e =
    subst (λ i. Only (suc k) (view.devices w) (view.devices (moved (record { index = i }) ns w).1))
      e (λ j ne. (refl, refl))

mover-Spares : Spares mover view
unfolding inside where_is called
mover-Spares = record {
  renaming = named-Only;
  moving = moved-Only;
  doing = λ ns m w. inr (record w { current_ns = ns }, refl, refl, refl);
}

-- The pod's interface would get the name of the PF, which is refused.
setup_vf-ConfinedTo_example :
    ConfinedTo mover view "enp1s0" before
      (setup_vf mover conf "enp1s0" "enp1s0" "c1" 1 request before).1
setup_vf-ConfinedTo_example =
    setup_vf-ConfinedTo mover view mover-Obeys mover-Spares mover-Settles conf "enp1s0" "enp1s0"
      "c1" 1 request before refl

mover-Shelters : Shelters mover view
unfolding where_is called
mover-Shelters = record {
  returning = λ ipam_type stdin w. refl;
  running = λ args w. refl;
  querying = λ address port timeout w. refl;
  getting_netns = λ w. refl;
  opening_netns = λ path w. refl;
  entering_netns = λ ns w. refl;
  closing_netns = λ ns w. refl;
  listing_interfaces = λ w. refl;
  unlinking = λ file w. refl;
  closing_file = λ file w. refl;
}

abbrev held : World
held = record bound { locked = true }

acquires : acquire_shm_mutex mover.shm bound ≡ (ok mutex_name, held)
unfolding acquire_shm_mutex attempts after_attempt
acquires = refl

opens :
    (ns : Ns) (y z : World) → mover.get_ns args.netns y ≡ (ok ns, z) → view.space ns ≡ view.space 1
opens ns y z e = let one : 1 ≡ ns = cc (ap (λ r. r.0) e) in sym (ap view.space one)

cmd_del-Foreign_example :
    Foreign (view.space 1) (view.devices held) (view.devices (cmd_del mover args bound).1)
unfolding load_conf checked with_defaults is_empty_dpdk
cmd_del-Foreign_example =
    cmd_del-Foreign mover view mover-Obeys mover-Spares mover-Shelters args conf mutex_name
      (view.space 1) bound held refl acquires opens

-- The second placement is no index of the PFs, so the loop panics once the first interface is added.
add_interfaces-Foreign_example : Foreign (view.current before) (view.devices before) (
    view.devices
      (add_interfaces mover args 1
        (request ∷ request ∷ [])
        (pf ∷ [])
        (0 ∷ 1 ∷ [])
        0
        (record { conf = conf; deferred = []; final = none })
        before).1)
add_interfaces-Foreign_example =
    add_interfaces-Foreign mover view mover-Obeys mover-Spares mover-Settles (λ w. refl) args 1
      (request ∷ request ∷ []) (pf ∷ []) (0 ∷ 1 ∷ []) 0
      (record { conf = conf; deferred = []; final = none }) before refl

-- The device of the VF is in the pod already, so the command does not succeed.
cmd_add-Beyond_example :
    Beyond
      (view.current held)
      (view.space 1)
      (view.devices held)
      (view.devices (cmd_add mover args bound).1)
unfolding load_conf checked with_defaults is_empty_dpdk
cmd_add-Beyond_example =
    cmd_add-Beyond mover view mover-Obeys mover-Spares mover-Settles mover-Attends mover-Shelters
      (λ w. refl) args conf refl (view.space 1) mutex_name bound held refl acquires opens
