-- ===== src/Tests/Removal.antt =====
-- The theorems on the DEL command and the release of VFs, at concrete inputs.
use rit_k8s_rdma_sriov_cni.Base.{ℕ, sym, ap, map, ◌≡◌, ◌↔◌, refl}
use rit_k8s_rdma_sriov_cni.Go.{host, ok, err}
use rit_k8s_rdma_sriov_cni.Host.{Host, NetInterface}
use rit_k8s_rdma_sriov_cni.Del.{
  del_locked, get_namespace_interfaces, visit_namespace, list_interfaces,
}
use rit_k8s_rdma_sriov_cni.Del.Failing.{Fails, ipam_fails, del_locked-Fails_iff}
use rit_k8s_rdma_sriov_cni.Del.Namespace.{Enters, get_namespace_interfaces-back}
use rit_k8s_rdma_sriov_cni.Tests.Machine.{netns, interface_of}
use rit_k8s_rdma_sriov_cni.Tests.Machine.{World, machine, conf, settings, world}
use rit_k8s_rdma_sriov_cni.Tests.Commands.{args}
use rit_k8s_rdma_sriov_cni.Host.{Ns}

abbrev pub eth0 : NetInterface
eth0 = record { name = "eth0"; mac = "02:00" }

InNamespace : ℕ → World → Type 0
InNamespace ns w = w.current_ns ≡ ns

netns-Enters : Enters netns InNamespace
unfolding InNamespace
netns-Enters = record {
  setting = λ ns w v e. sym (ap (λ r. r.1.current_ns) e);
  closing = λ ns handle w p. p;
}

lists :
    get_namespace_interfaces (machine settings) "/var/run/netns/p" world
    ≡ (ok (map interface_of world.devices), world)
unfolding get_namespace_interfaces visit_namespace list_interfaces
lists = refl

get_namespace_interfaces-back_example :
    (origns : Ns) × (((machine settings).get_netns world).0 ≡ ok origns) × InNamespace origns world
get_namespace_interfaces-back_example =
    get_namespace_interfaces-back (machine settings) InNamespace netns-Enters "/var/run/netns/p"
      world world (map interface_of world.devices) lists

-- The IPAM plugin does not take the address back.
abbrev down : Host World
down = record (machine settings) {
  ipam = record (machine settings).ipam { exec_del = λ ipam_type stdin w. (err (host "down"), w) };
}

del_locked-Fails_iff_example :
    (del_locked down conf args world ≡ (err (host "down"), world))
    ↔ Fails down conf args world (host "down") world
del_locked-Fails_iff_example = del_locked-Fails_iff down conf args world world (host "down")

fails : del_locked down conf args world ≡ (err (host "down"), world)
fails = del_locked-Fails_iff_example.1 (ipam_fails refl refl)
