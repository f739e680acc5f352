-- ===== src/Tests/Tracing.antt =====
-- The theorems on the commands as processes, on the host in memory.
use rit_k8s_rdma_sriov_cni.Base.{◌≡◌, ap, String, Bool, false, if◌then◌else◌}
use rit_k8s_rdma_sriov_cni.Go.{host, Error, Outcome, ok, err}
use rit_k8s_rdma_sriov_cni.Host.{Host, Shm}
use rit_k8s_rdma_sriov_cni.Tests.Machine.{World, shm, machine, settings}

abbrev Answer : Type 0
Answer = Outcome Error String × World

named : (f g : String) (u w : World) → ◌≡◌ {A = Answer} (ok f, w) (ok g, u) → f ≡ g
named f g u w e = cc (ap (λ r. r.0) e)

abbrev Done : Type 0
Done = Outcome Error Unit × World

-- The machine with an unlink that fails if the file is not there
abbrev strict_shm : Shm World
strict_shm = record shm {
  unlink = λ name w.
      if w.locked then (ok tt, record w { locked = false }) else (err (host "no such file"), w);
}

abbrev strict : Host World
strict = record (machine settings) { shm = strict_shm }

abbrev locked : World → Bool
locked w = w.locked
