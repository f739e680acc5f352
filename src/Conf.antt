-- ===== src/Conf.antt =====
-- The plugin's configuration, sriov/sriov.go: `dpdkConf`, `NetConf`, `checkIf0name`, `loadConf`.
pub mod Loading
use rit_k8s_rdma_sriov_cni.Base.{
  ℕ, String, Bool, true, false, not, ◌&&◌, List, [], ◌∷◌, ◌==◌, ◌=?◌, if◌then◌else◌,
}
use rit_k8s_rdma_sriov_cni.Go.{Error, errorf, wrapf, Tried, success, failure}
use rit_k8s_rdma_sriov_cni.Go.Strconv.{ℤ, pos, negsuc}
use rit_k8s_rdma_sriov_cni.Cni.{Dns}

abbrev pub default_cni_dir : String
default_cni_dir = "/var/lib/cni/sriov"

abbrev pub max_shared_vf : ℕ
max_shared_vf = 2

-- The VF's number is an index of the loop of `setupVF`, or comes from the file that it wrote.
pub record DpdkConf : Type 0 where
  pub pci_addr : String
  pub ifname : String
  pub k_driver : String
  pub dpdk_driver : String
  pub dpdk_tool : String
  pub vfid : ℤ

-- The embedded `types.NetConf` gives `name`, `plugin_type`, `ipam_type` and `dns`.
pub record NetConf : Type 0 where
  pub name : String
  pub plugin_type : String
  pub ipam_type : String
  pub dns : Dns
  pub dpdk_mode : Bool
  pub shared_vf : Bool
  pub dpdk_conf : DpdkConf
  pub cni_dir : String
  pub if0name : String
  pub l2_mode : Bool
  pub vlan : ℤ

abbrev pub is_zero : ℤ → Bool
is_zero (pos n) = n == 0
is_zero (negsuc n) = false

reserved_names : List String
reserved_names = "eth0" ∷ "eth1" ∷ "lo" ∷ "" ∷ []

-- The loop of `checkIf0name`
none_equal : List String → String → Bool
none_equal [] ifname = true
none_equal (if0name ∷ op) ifname =
    let rest = none_equal op ifname in if if0name =? ifname then false else rest

unfoldable pub check_if0name : String → Bool
unfolding reserved_names none_equal
check_if0name ifname = none_equal reserved_names ifname

-- `(dpdkConf{}) == c`
unfoldable pub is_empty_dpdk : DpdkConf → Bool
is_empty_dpdk c =
    (c.pci_addr =? "")
    && (c.ifname =? "")
    && (c.k_driver =? "")
    && (c.dpdk_driver =? "")
    && (c.dpdk_tool =? "")
    && is_zero c.vfid

-- What `loadConf` fills in once the name is accepted.
unfoldable pub with_defaults : NetConf → NetConf
with_defaults n = record n {
  cni_dir = if n.cni_dir =? "" then default_cni_dir else n.cni_dir;
  dpdk_mode = if not (is_empty_dpdk n.dpdk_conf) then true else n.dpdk_mode;
}

abbrev pub if0name_message : String
if0name_message =
    "\"if0name\" field should not be  equal to (eth0 | eth1 | lo | \"\"). It specifies the virtualized interface name in the pod"

unfoldable pub checked : NetConf → Tried Error NetConf
checked n =
    if not (n.if0name =? "") && not (check_if0name n.if0name)
    then failure (errorf if0name_message [])
    else success (with_defaults n)

-- `json.Unmarshal` into `&NetConf{}` is the argument.
unfoldable pub load_conf : (String → Tried Error NetConf) → String → Tried Error NetConf
load_conf unmarshal bytes = elim (unmarshal bytes) [
  | failure e ↦ failure (wrapf "failed to load netconf: %v" [] e)
  | success n ↦ checked n
]
