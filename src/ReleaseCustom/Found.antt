-- ===== src/ReleaseCustom/Found.antt =====
-- What a release on DEL needs to succeed.
use rit_k8s_rdma_sriov_cni.Base.{◌≡◌}
use rit_k8s_rdma_sriov_cni.Go.{Error, ok, panic, Run}
use rit_k8s_rdma_sriov_cni.Host.{Host, Ns, Namespaces}

-- What is assumed of package ns: a function that panics in its goroutine ends the process, so a
-- call of `Do` with it does not return nil.
abbrev pub PanicsThrough : {W : Type 0} → Namespaces W → Type 0
PanicsThrough {W} n =
    (ns : Ns) (m : Run W Error Unit) (w : W)
    → ((v : W) → (m v).0 ≡ panic)
    → ¬ ((n.do_in_ns ns m w).0 ≡ ok tt)
