-- ===== src/Del/Names.antt =====
-- The interfaces that ADD lists and those that DEL releases.
use Prim.Native.String.{len, slice}
use text.Mathlib.TextPositions.{len-append, slice-append_right, starts_with-append}
use rit_k8s_rdma_sriov_cni.Base.{
  ℕ, suc, ◌+◌, ◌^◌, ◌≤◌, ◌<◌, ◌≡◌, refl, sym, ap, ◌∙◌, subst, String, ◌<>◌, true, none, List, [],
  ◌∷◌, length, arith,
}
use rit_k8s_rdma_sriov_cni.Go.Strconv.{itoa}
use rit_k8s_rdma_sriov_cni.Go.Strconv.Decimal.{parse_int-itoa}
use rit_k8s_rdma_sriov_cni.Cni.{Interface}
use rit_k8s_rdma_sriov_cni.Go.{ok}
use rit_k8s_rdma_sriov_cni.Conf.{NetConf}
use rit_k8s_rdma_sriov_cni.Host.{Host, Ns, InterfaceRequest, PfInfo}
use rit_k8s_rdma_sriov_cni.Add.Interfaces.{CmdArgs, Progress, add_interfaces}
use rit_k8s_rdma_sriov_cni.Add.Listed.{Converts, listed, names_from, add_interfaces-listed}
use rit_k8s_rdma_sriov_cni.Del.{is_pod_interface}

behind_eth : (s : String) → slice ("eth" <> s) 3 (len ("eth" <> s)) ≡ s
behind_eth s = ap (slice ("eth" <> s) 3) (len-append "eth" s) ∙ slice-append_right "eth" s

is_pod_interface-eth : (i : ℕ) → i < 2 ^ 63 → is_pod_interface ("eth" <> itoa i) ≡ true
unfolding is_pod_interface
is_pod_interface-eth i h =
    rw (starts_with-append "eth" (itoa i), behind_eth (itoa i), parse_int-itoa i h) refl

-- Every listed interface is one of the pod's for DEL.
abbrev pub AllReleased : List Interface → Type 0
AllReleased [] = Unit
AllReleased (i ∷ is) = (is_pod_interface i.name ≡ true) × AllReleased is

names_from-AllReleased_at :
    (i : ℕ) (placements : List ℕ)
    → i + length placements ≤ 2 ^ 63
    → AllReleased (names_from i placements)
names_from-AllReleased_at i [] h = tt
names_from-AllReleased_at i (p ∷ ps) h = (
  is_pod_interface-eth i (omega (arith, h)),
  names_from-AllReleased_at (suc i) ps (omega (arith, h)),
)

-- Every interface that the loop of a successful ADD has listed passes the test by which DEL finds the
-- interfaces that it releases. It is assumed that the conversion of results succeeds and lists no
-- interface of its own, and that the pod has at most 2^63 interfaces.
pub add_interfaces-AllReleased :
    {W : Type 0} (h : Host W) (args : CmdArgs) (netns : Ns) (conf : NetConf)
    (requests : List InterfaceRequest) (pfs : List PfInfo) (placements : List ℕ) (w : W)
    (p : Progress)
    → Converts h.new_result_from_result
    → length placements ≤ 2 ^ 63
    → (add_interfaces h args netns requests pfs placements 0
        (record { conf = conf; deferred = []; final = none })
        w).0
      ≡ ok p
    → AllReleased (listed p.final)
add_interfaces-AllReleased h args netns conf requests pfs placements w p law few done =
    subst AllReleased
      (sym (
        add_interfaces-listed h args netns law requests pfs placements 0
          (record { conf = conf; deferred = []; final = none }) w p done))
      (names_from-AllReleased_at 0 placements (omega (arith, few)))
