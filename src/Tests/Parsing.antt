-- ===== src/Tests/Parsing.antt =====
-- The theorems on configurations and on fixipam, at concrete inputs.
use rit_k8s_rdma_sriov_cni.Base.{
  Bool, Bool-cases, List, String, [], ap, false, false≢true, if◌then◌else◌, inl, inr, none, refl,
  some, sym, true, ℕ, ◌==◌, ◌=?◌, ◌↔◌, ◌∙◌, ◌∷◌, ◌≡◌, ◌⊎◌,
}
use rit_k8s_rdma_sriov_cni.Go.{Error, host, ok, panic, Tried, success, failure}
use rit_k8s_rdma_sriov_cni.Net.{
  ip_equal, contains, to4, network_number_and_mask, masked_equal, bytes_equal,
}
use Prim.Native.Char.{code}
use rit_k8s_rdma_sriov_cni.Go.Strings.{join}
use rit_k8s_rdma_sriov_cni.Go.Strings.Pieces.{Free}
use rit_k8s_rdma_sriov_cni.Pod.{pod_of_args}
use rit_k8s_rdma_sriov_cni.Pod.Args.{latest, pod_of_args-args_text}
use rit_k8s_rdma_sriov_cni.Conf.{
  NetConf, load_conf, checked, with_defaults, check_if0name, is_empty_dpdk,
}
use rit_k8s_rdma_sriov_cni.Conf.Loading.{IsReserved, load_conf-fails_iff}
use rit_k8s_rdma_sriov_cni.Fixipam.{
  IpamConfig, Library, load_ipam_config, with_args, named_config, cmd_add, cmd_del,
}
use rit_k8s_rdma_sriov_cni.Fixipam.Answers.{IsGrantable, Grants, cmd_add-Grants_iff, missing_ipam}
use rit_k8s_rdma_sriov_cni.Tests.Machine.{conf}

-- A text without a directory, and with a DPDK field
abbrev dpdk_conf : NetConf
dpdk_conf = record conf { cni_dir = ""; dpdk_conf = record conf.dpdk_conf { k_driver = "ixgbevf" } }

abbrev loaded_conf : NetConf
loaded_conf = record conf {
  dpdk_conf = record conf.dpdk_conf { k_driver = "ixgbevf" };
  dpdk_mode = true;
}

parse : String → Tried Error NetConf
parse bytes = if bytes =? "dpdk" then success dpdk_conf else failure (host "invalid")

loads : load_conf parse "dpdk" ≡ success loaded_conf
unfolding load_conf checked with_defaults check_if0name is_empty_dpdk parse
loads = refl

load_conf-fails_iff_example : ((e : Error) × (load_conf parse "{" ≡ failure e)) ↔ (
    ((e : Error) × (parse "{" ≡ failure e))
    ⊎ ((m : NetConf) × (parse "{" ≡ success m) × IsReserved m.if0name))
load_conf-fails_iff_example = load_conf-fails_iff parse "{"

-- A subnet, its gateway, and an address that is asked for
abbrev asked : List ℕ
asked = 10 ∷ 0 ∷ 0 ∷ 7 ∷ []

abbrev gateway : List ℕ
gateway = 10 ∷ 0 ∷ 0 ∷ 1 ∷ []

abbrev range : IpamConfig
range = record {
  name = "";
  plugin_type = "fixipam";
  subnet = record { ip = some (10 ∷ 0 ∷ 0 ∷ 0 ∷ []); mask = 255 ∷ 255 ∷ 255 ∷ 0 ∷ [] };
  gateway = some gateway;
  routes = [];
  args = none;
}

abbrev granted : IpamConfig
granted = record range { name = "net"; args = some (record { ip = some asked }) }

abbrev library : Library ℕ
library = record {
  unmarshal_net =
      λ bytes. success (record { name = "net"; ipam = if bytes =? "{}" then none else some range });
  load_args = λ args. success (some asked);
  print_ipam_result = λ r n. (ok tt, n);
}

cmd_add-Grants_iff_example :
    (cmd_add library "net" "IP=10.0.0.7" 0 ≡ (ok tt, 0)) ↔ Grants library "net" "IP=10.0.0.7" 0 0
cmd_add-Grants_iff_example = cmd_add-Grants_iff library "net" "IP=10.0.0.7" 0 0

configures : load_ipam_config library "net" "IP=10.0.0.7" 0 ≡ (ok granted, 0)
unfolding load_ipam_config with_args named_config
configures = refl

granted-IsGrantable : IsGrantable granted asked gateway
unfolding contains ip_equal to4 network_number_and_mask masked_equal bytes_equal
granted-IsGrantable = record { asked = refl; gateway = refl; not_gateway = refl; in_subnet = refl }

grants : Grants library "net" "IP=10.0.0.7" 0 0
grants = record {
  config = granted;
  ip = asked;
  gw = gateway;
  loaded = 0;
  loads = configures;
  grantable = granted-IsGrantable;
  prints = refl;
}

answers : cmd_add library "net" "IP=10.0.0.7" 0 ≡ (ok tt, 0)
answers = cmd_add-Grants_iff_example.1 grants

missing_ipam_example :
    (cmd_add library "{}" "IP=10.0.0.7" 0 ≡ (panic, 0))
    × (cmd_del library "{}" "IP=10.0.0.7" 0 ≡ (panic, 0))
missing_ipam_example =
    missing_ipam library "{}" "IP=10.0.0.7" (record { name = "net"; ipam = none }) 0 refl refl

unfoldable is_free : ℕ → String → Bool
is_free sep String.[] = true
is_free sep (String.◌∷◌ c s) = let rest = is_free sep s in if code c == sep then false else rest

is_free-Free : (sep : ℕ) (s : String) → is_free sep s ≡ true → Free sep s
unfolding is_free
is_free-Free sep String.[] e = tt
is_free-Free sep (String.◌∷◌ c s) e = elim (Bool-cases (code c == sep)) [
  | inl is ↦ absurd (false≢true (sym (ap (λ b. if b then false else is_free sep s) is) ∙ e))
  | inr other ↦
      (other, is_free-Free sep s (sym (ap (λ b. if b then false else is_free sep s) other) ∙ e))
]

plain :
    (key value : String)
    → is_free b'=' key ≡ true
    → is_free b'=' value ≡ true
    → is_free b';' key ≡ true
    → is_free b';' value ≡ true
    → (Free b'=' key × Free b'=' value) × (Free b';' key × Free b';' value)
plain key value p q r s = (
  (is_free-Free b'=' key p, is_free-Free b'=' value q),
  (is_free-Free b';' key r, is_free-Free b';' value s),
)

pod_of_args-args_text_example :
    pod_of_args "IgnoreUnknown=1;K8S_POD_NAMESPACE=default;K8S_POD_NAME=web"
    ≡ record { name = "web"; ns = "default" }
unfolding join latest is_free
pod_of_args-args_text_example =
    pod_of_args-args_text
      (("IgnoreUnknown", "1") ∷ ("K8S_POD_NAMESPACE", "default") ∷ ("K8S_POD_NAME", "web") ∷ [])
      (
        plain "IgnoreUnknown" "1" refl refl refl refl,
        (
          plain "K8S_POD_NAMESPACE" "default" refl refl refl refl,
          (plain "K8S_POD_NAME" "web" refl refl refl refl, tt),
        ),
      )
