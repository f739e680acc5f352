-- ===== src/Tests/Ordering.antt =====
-- The theorem on the order of the PFs, with insertion sort for `sort.Sort`, at a concrete input.
use rit_k8s_rdma_sriov_cni.Base.{◌=?◌, String, Bool, List, [], ◌∷◌, if◌then◌else◌}
use mathlib.Core.List.{Perm}
use mathlib.Core.List.Perm
use rit_k8s_rdma_sriov_cni.Go.{pure}
use rit_k8s_rdma_sriov_cni.Host.{Host}
use rit_k8s_rdma_sriov_cni.Pfs.{PfCount}
use rit_k8s_rdma_sriov_cni.Tests.Machine.{World, machine, files, settings, world}

module _ (less : PfCount → PfCount → Bool) where
  insert : PfCount → List PfCount → List PfCount
  insert x [] = x ∷ []
  insert x (y ∷ ys) = let rest = insert x ys in if less y x then y ∷ rest else x ∷ y ∷ ys

  sort_by_insertion : List PfCount → List PfCount
  sort_by_insertion [] = []
  sort_by_insertion (x ∷ xs) = insert x (sort_by_insertion xs)

-- Two PFs, of which the second has more VFs with a device
vfs_of : String → List String
vfs_of pattern =
    if pattern =? "/sys/class/net/ens2/device/virtfn*/net/*"
    then "ens2f0" ∷ "ens2f1" ∷ []
    else "x" ∷ []

abbrev globbing : Host World
unfolding vfs_of
globbing = record (machine settings) {
  files = record files { glob = λ pattern. pure (vfs_of pattern) };
}

abbrev two_pfs : World
two_pfs = record world {
  files =
      ("/sys/class/net/enp1s0/device/sriov_numvfs", "4")
      ∷ ("/sys/class/net/ens2/device/sriov_numvfs", "2")
      ∷ [];
}
