-- ===== src/Pod.antt =====
-- What an ADD asks of the cluster, sriov/sriov.go: the loop of `cmdAdd` over `CNI_ARGS`, and
-- `getPodRequirements`.
pub mod Args
pub mod Fatal
use rit_k8s_rdma_sriov_cni.Base.{◌≡◌, refl, String, List, [], ◌∷◌, ◌=?◌, if◌then◌else◌}
use rit_k8s_rdma_sriov_cni.Go.{Error, Run, success, failure, pure, fatal, ◌>>=◌, attempt, of_tried}
use rit_k8s_rdma_sriov_cni.Go.Strings.{split}
use rit_k8s_rdma_sriov_cni.Host.{Cluster, InterfaceRequest}

pub record PodName : Type 0 where
  pub name : String
  pub ns : String

-- One pair `key=value`; a piece with no `=`, or with two, is passed over.
unfoldable pub with_pair : PodName → List String → PodName
with_pair pod (key ∷ value ∷ []) =
    if key =? "K8S_POD_NAMESPACE"
    then record pod { ns = value }
    else if key =? "K8S_POD_NAME"
    then record pod { name = value }
    else pod
with_pair pod _ = pod

unfoldable pub with_pairs : PodName → List String → PodName
unfolding with_pair
with_pairs pod [] = pod
with_pairs pod (mapping ∷ rest) = with_pairs (with_pair pod (split b'=' mapping)) rest

unfoldable pub pod_of_args : String → PodName
unfolding with_pairs split
pod_of_args args = with_pairs (record { name = ""; ns = "" }) (split b';' args)

pod_of_args_test :
    pod_of_args "IgnoreUnknown=1;K8S_POD_NAMESPACE=default;K8S_POD_NAME=p=q;K8S_POD_NAME=web"
    ≡ record { name = "web"; ns = "default" }
unfolding pod_of_args
pod_of_args_test = refl

module _ {W : Type 0} (c : Cluster W) where
  -- `if err != nil { log.Fatal(…) }`
  unfoldable pub or_fatal : {A : Type 0} → Run W Error A → Run W Error A
  or_fatal m = do r ← attempt m; elim r [ success a ↦ pure a | failure e ↦ fatal ]

  unfoldable pub get_pod_requirements : String → String → Run W Error (List InterfaceRequest)
  unfolding or_fatal
  get_pod_requirements pod_name pod_namespace = do
    config ← or_fatal (c.build_config_from_flags "" "/etc/kubernetes/kubelet.conf")
    clientset ← or_fatal (c.new_for_config config)
    annotation ←
        or_fatal (c.get_pod_annotation clientset pod_namespace pod_name "rdma_interfaces_required")
    if annotation =? "" then pure [] else or_fatal (of_tried (c.unmarshal_requests annotation))
