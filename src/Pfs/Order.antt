-- ===== src/Pfs/Order.antt =====
-- What `getPFs` returns.
use rit_k8s_rdma_sriov_cni.Base.{
  ◌≤◌, ◌≡◌, ◌≢◌, ◌⊎◌, String, ◌<>◌, Bool, true, false, List, [], ◌∷◌, map, length, All,
}
use rit_k8s_rdma_sriov_cni.Go.{ok}
use mathlib.Core.List.{Perm}
use rit_k8s_rdma_sriov_cni.Host.{Host}
use rit_k8s_rdma_sriov_cni.Pfs.{PfCount, Sort, validate_all}

-- A strict weak order
pub record IsWeakOrder (less : PfCount → PfCount → Bool) : Type 0 where
  pub asymmetric : (a b : PfCount) → less a b ≡ true → less b a ≡ false
  pub negatively_transitive :
      (a b c : PfCount) → less a b ≡ false → less b c ≡ false → less a c ≡ false

-- No element comes after a greater one.
abbrev pub IsSorted : (PfCount → PfCount → Bool) → List PfCount → Type 0
IsSorted less [] = Unit
IsSorted less (x ∷ xs) = All (λ y. less y x ≡ false) xs × IsSorted less xs

-- What is assumed of `sort.Sort`: for a strict weak order it sorts.
abbrev pub Sorts : Sort → Type 0
Sorts sort =
    (less : PfCount → PfCount → Bool) (xs : List PfCount)
    → IsWeakOrder less
    → Perm xs (sort less xs) × IsSorted less (sort less xs)

-- The devices that are not `if0`, in their order
pub data Without (if0 : String) : List String → List String → Type 0 where
  no_device : Without if0 [] []
  drops :
      {pf : String} {devs rest : List String}
      → pf ≡ if0
      → Without if0 devs rest
      → Without if0 (pf ∷ devs) rest
  keeps :
      {pf : String} {devs rest : List String}
      → pf ≢ if0
      → Without if0 devs rest
      → Without if0 (pf ∷ devs) (pf ∷ rest)

-- `if0`, unless it is empty, and those
abbrev pub Chosen : String → List String → List String → Type 0
Chosen if0 devs pfs =
    (rest : List String) × Without if0 devs rest
    × (((if0 ≡ "") × (pfs ≡ rest)) ⊎ ((if0 ≢ "") × (pfs ≡ if0 ∷ rest)))

-- The PFs come with their counts in descending order.
abbrev pub Descending : List PfCount → Type 0
Descending [] = Unit
Descending (x ∷ xs) = All (λ y. y.num_vfs ≤ x.num_vfs) xs × Descending xs

module _ {W : Type 0} (h : Host W) where
  -- For one PF after the other, the names that the pattern of its VFs' network devices matches are
  -- counted.
  pub data Counts : List String → W → List PfCount → W → Type 0 where
    no_more : {w : W} → Counts [] w [] w
    counts :
        {pf : String} {devices vfs : List String} {pfs : List PfCount} {w x u : W}
        → h.glob ("/sys/class/net/" <> pf <> "/device/virtfn*/net/*") w ≡ (ok vfs, x)
        → Counts devices x pfs u
        → Counts (pf ∷ devices) w (record { pf_ndev_name = pf; num_vfs = length vfs } ∷ pfs) u

  -- What a `getPFs` from `w` on that returns `result` has done.
  pub record IsOrdered (if0 : String) (devs : List String) (w : W) (result : List String)
      : Type 0 where
    pub pfs : List String
    pub counted : List PfCount
    pub sorted : List PfCount
    pub validated : W
    pub after : W
    pub chosen : Chosen if0 devs pfs
    pub validates : validate_all h pfs w ≡ (ok tt, validated)
    pub counts : Counts pfs validated counted after
    pub same_counts : Perm counted sorted
    pub descending : Descending sorted
    pub names : result ≡ map (λ p. p.pf_ndev_name) sorted
    pub same_names : Perm pfs result
