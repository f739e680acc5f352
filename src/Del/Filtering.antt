-- ===== src/Del/Filtering.antt =====
-- Which interfaces of the pod the loop of `cmdDel` releases.
use rit_k8s_rdma_sriov_cni.Base.{◌≡◌, refl, ◌∙◌, Bool, true, false, List, [], ◌∷◌, if◌then◌else◌}
use rit_k8s_rdma_sriov_cni.Go.{
  Outcome, ok, err, exit, panic, continue, Run, Error, pure, attempt, ◌>>=◌,
}
use rit_k8s_rdma_sriov_cni.Conf.{NetConf}
use rit_k8s_rdma_sriov_cni.Host.{Host, NetInterface, PfInfo}
use rit_k8s_rdma_sriov_cni.ReleaseCustom.{release_vf_custom}
use rit_k8s_rdma_sriov_cni.Del.{
  is_pod_interface, release_interface, release_interfaces, after_release,
}
use rit_k8s_rdma_sriov_cni.Add.Interfaces.{CmdArgs}

-- The interfaces that are called `eth` and a number
unfoldable pub pod_interfaces : List NetInterface → List NetInterface
pod_interfaces [] = []
pod_interfaces (intf ∷ rest) =
    let kept = pod_interfaces rest in if is_pod_interface intf.name then intf ∷ kept else kept

module _ {W E A B C : Type 0} where
  continue_map :
      (r : Outcome E A) (f : A → B) (k : B → Run W E C) (w : W)
      → continue
          (continue r (λ a. pure {W = W} (f a)) w).0
          k
          (continue r (λ a. pure {W = W} {E = E} (f a)) w).1
        ≡ continue r (λ a. k (f a)) w
  continue_map (ok a) f k w = refl
  continue_map (err e) f k w = refl
  continue_map exit f k w = refl
  continue_map panic f k w = refl

module _ {W : Type 0} (h : Host W) (args : CmdArgs) (pfs : List PfInfo) where
  -- One release after the other, each with the configuration that the one before has left, and
  -- whether or not that one failed
  unfoldable pub release_each : NetConf → List NetInterface → Run W Error Unit
  release_each n [] = pure tt
  release_each n (intf ∷ rest) = do
    released ← attempt (release_vf_custom h n intf args.container_id args.netns pfs)
    release_each (after_release h n released) rest

  by_name :
      (b : Bool) (n : NetConf) (intf : NetInterface) (rest : List NetInterface) (w : W)
      → ((m : NetConf) (x : W)
          → release_interfaces h m args pfs rest x ≡ release_each m (pod_interfaces rest) x)
      → ((if b
              then (do
                released ← attempt (release_vf_custom h n intf args.container_id args.netns pfs)
                pure (after_release h n released))
              else pure n)
            >>= λ m. release_interfaces h m args pfs rest)
          w
        ≡ release_each n (if b then intf ∷ pod_interfaces rest else pod_interfaces rest) w
  unfolding release_each
  by_name true n intf rest w later =
      let (r, u) =
        attempt {F = Error} (release_vf_custom h n intf args.container_id args.netns pfs) w in
      continue_map r (after_release h n) (λ m. release_interfaces h m args pfs rest) u
      ∙ (λ i. continue r (λ t x. later (after_release h n t) x i) u)
  by_name false n intf rest w later = later n w

  -- The loop of DEL over the interfaces of the pod's namespace does what a loop does that releases
  -- each interface called `eth` and a number, in order, and no other; an error of one does not end
  -- it, and each release starts with the `Sharedvf` that the one before has left.
  pub release_interfaces-pod_interfaces :
      (n : NetConf) (interfaces : List NetInterface) (w : W)
      → release_interfaces h n args pfs interfaces w ≡ release_each n (pod_interfaces interfaces) w
  unfolding release_interfaces release_interface release_each pod_interfaces
  release_interfaces-pod_interfaces n [] w = refl
  release_interfaces-pod_interfaces n (intf ∷ rest) w =
      by_name (is_pod_interface intf.name) n intf rest w
        λ m x. release_interfaces-pod_interfaces m rest x
