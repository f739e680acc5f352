-- ===== src/Setup/Sorted.antt =====
-- The order in which the two devices of a shared VF are moved.
use rit_k8s_rdma_sriov_cni.Base.{
  Bool-cases, inl, inr, ◌≡◌, refl, String, [], ◌∷◌, ltb, if◌then◌else◌,
}
use rit_k8s_rdma_sriov_cni.Go.{ok}
use rit_k8s_rdma_sriov_cni.Host.{Host, Link}
use rit_k8s_rdma_sriov_cni.Setup.{sort_infos}

module _ {W : Type 0} (h : Host W) (a b : String) (la lb : Link) (w : W)
    (found_a : h.link_by_name a w ≡ (ok la, w)) (found_b : h.link_by_name b w ≡ (ok lb, w)) where
  -- Two devices that are both found are sorted by their indices: they change places exactly if the
  -- second has the smaller index.
  sort_infos-two :
      sort_infos h (a ∷ b ∷ []) w
      ≡ (ok (if ltb lb.index la.index then b ∷ a ∷ [] else a ∷ b ∷ []), w)
  unfolding sort_infos
  sort_infos-two = elim (Bool-cases (ltb lb.index la.index)) [
    | inl e ↦ rw (found_b, found_a, e) refl
    | inr e ↦ rw (found_b, found_a, e) refl
  ]
