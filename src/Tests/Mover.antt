-- ===== src/Tests/Mover.antt =====
-- A host on which the VF's device has a place and a name, and its view.
use rit_k8s_rdma_sriov_cni.Base.{
  ℕ, zero, suc, true, false, String, List, [], ◌∷◌, ◌≡◌, ◌==◌, ◌=?◌, ◌&&◌, if◌then◌else◌,
}
use rit_k8s_rdma_sriov_cni.Go.{Error, host, ok, err, Run}
use rit_k8s_rdma_sriov_cni.Host.{Host, Link, Ns}
use rit_k8s_rdma_sriov_cni.Network.{View}
use rit_k8s_rdma_sriov_cni.Tests.Commands.{addressed}
use rit_k8s_rdma_sriov_cni.Tests.Machine.{World, machine, in_goroutine, netlink, namespaces}

-- Handle 0 is the host's namespace, all others are the pod's.
unfoldable pub space : Ns → ℕ
space zero = 0
space (suc n) = 1

-- The VF's device: its name and a handle of its namespace. Any name but that of the PF will do.
unfoldable pub shown : String → String
shown name = if name =? "enp1s0" then "" else name

unfoldable pub stored : List (String × ℕ) → String × ℕ
unfolding shown
stored [] = ("", 0)
stored ((name, ns) ∷ rest) = (shown name, ns)

abbrev pub vf_at : World → String × ℕ
vf_at w = stored w.devices

abbrev pub put : String → ℕ → World → World
put name ns w = record w { devices = (name, ns) ∷ [] }

-- The device of the VF has index 9, that of the PF 5.
unfoldable pub looked_up : String → Run World Error Link
looked_up name w =
    if (name =? "enp1s0") && (space w.current_ns == 0)
    then (ok (record { index = 5 }), w)
    else if (name =? (vf_at w).0) && (space w.current_ns == space (vf_at w).1)
    then (ok (record { index = 9 }), w)
    else (err (host "not found"), w)

unfoldable pub named : Link → String → Run World Error Unit
named l new w =
    if (l.index == 9) && (if new =? "enp1s0" then false else true)
    then (ok tt, put new (vf_at w).1 w)
    else (err (host "refused"), w)

unfoldable pub moved : Link → Ns → Run World Error Unit
moved l ns w = if l.index == 9 then (ok tt, put (vf_at w).0 ns w) else (err (host "refused"), w)

-- `Do` comes back.
unfoldable pub inside : Ns → Run World Error Unit → Run World Error Unit
inside ns m w =
    let (r, u) = m (record w { current_ns = ns }) in
    (in_goroutine r, record u { current_ns = w.current_ns })

abbrev pub mover : Host World
mover = record (machine addressed) {
  netlink = record netlink {
    link_by_name = looked_up;
    link_set_name = named;
    link_set_ns_fd = moved;
  };
  namespaces = record namespaces {
    get_current_ns = λ w. (ok w.current_ns, w);
    set_ns = λ ns w. (ok tt, record w { current_ns = ns });
    do_in_ns = inside;
  };
}

-- The VF's device, the PF's, and devices of other namespaces
unfoldable pub where_is : World → ℕ → ℕ
where_is w zero = space (vf_at w).1
where_is w (suc zero) = 0
where_is w (suc (suc k)) = suc (suc k)

unfoldable pub called : World → ℕ → String
called w zero = (vf_at w).0
called w (suc k) = "enp1s0"

unfoldable pub index_of : ℕ → ℕ
index_of zero = 9
index_of (suc k) = 5

abbrev pub view : View World
view = record {
  devices = λ w. record { ns_of = where_is w; name_of = called w };
  current = λ w. space w.current_ns;
  space = space;
  Denotes = λ l id w. index_of id ≡ l.index;
}
