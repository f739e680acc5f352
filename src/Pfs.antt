-- ===== src/Pfs.antt =====
-- The order of the PFs, sriov/sriov.go: `pfInfo`, `pfList`, `getOrderedPF`, `getPFs`. `sort.Sort` is
-- a parameter.
pub mod Order
use rit_k8s_rdma_sriov_cni.Base.{
  ℕ, String, ◌<>◌, Bool, List, [], ◌∷◌, ◌++◌, map, length, ltb, ◌=?◌, if◌then◌else◌,
}
use rit_k8s_rdma_sriov_cni.Go.{Error, Run, pure, ◌>>=◌, ◌>>◌}
use rit_k8s_rdma_sriov_cni.Host.{Host}
use rit_k8s_rdma_sriov_cni.Device.{validate_sriov_enabled}

pub record PfCount : Type 0 where
  pub pf_ndev_name : String
  pub num_vfs : ℕ

-- `pfList.Less`
unfoldable pub pf_less : PfCount → PfCount → Bool
pf_less a b = ltb b.num_vfs a.num_vfs

abbrev pub Sort : Type 0
Sort = (PfCount → PfCount → Bool) → List PfCount → List PfCount

-- The devices but `if0`
unfoldable pub others : String → List String → List String
others if0 [] = []
others if0 (pf ∷ devs) = let rest = others if0 devs in if pf =? if0 then rest else pf ∷ rest

-- The first two steps of `getPFs`
unfoldable pub candidates : String → List String → List String
candidates if0 devs = (if if0 =? "" then [] else if0 ∷ []) ++ others if0 devs

module _ {W : Type 0} (h : Host W) where
  -- The loop of `getOrderedPF`
  unfoldable pub count_pfs : List String → Run W Error (List PfCount)
  count_pfs [] = pure []
  count_pfs (pf_name ∷ devices) = do
    vfs ← h.glob ("/sys/class/net/" <> pf_name <> "/device/virtfn*/net/*")
    rest ← count_pfs devices
    pure (record { pf_ndev_name = pf_name; num_vfs = length vfs } ∷ rest)

  unfoldable pub validate_all : List String → Run W Error Unit
  validate_all [] = pure tt
  validate_all (pf ∷ pfs) = do validate_sriov_enabled h.files h.sriovnet pf; validate_all pfs

  module _ (sort : Sort) where
    unfoldable pub get_ordered_pf : List String → Run W Error (List String)
    get_ordered_pf devices = do
      pfs ← count_pfs devices
      pure (map (λ p. p.pf_ndev_name) (sort pf_less pfs))

    unfoldable pub get_pfs : String → List String → Run W Error (List String)
    get_pfs if0 devs = do validate_all (candidates if0 devs); get_ordered_pf (candidates if0 devs)
