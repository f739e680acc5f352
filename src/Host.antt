-- ===== src/Host.antt =====
-- The calls that the program makes of the kernel, the file system, other processes and Go libraries
-- that are not part of it, over an unknown host state `W`. Nothing is assumed of them here; the
-- modules below state what a theorem needs of them.
use rit_k8s_rdma_sriov_cni.Base.{ℕ, String, Bool, Option, List}
use rit_k8s_rdma_sriov_cni.Go.{Error, Run, Tried}
use rit_k8s_rdma_sriov_cni.Go.Strconv.{ℤ}
use rit_k8s_rdma_sriov_cni.Cni.{IpamResult, Result020, CurrentResult}
use rit_k8s_rdma_sriov_cni.Conf.{NetConf}

-- `netlink.Link`, by the index of its attributes
pub record Link : Type 0 where
  pub index : ℕ

-- A handle of an open network namespace, which is not used again
abbrev pub Ns : Type 0
Ns = ℕ

pub record Netlink (W : Type 0) : Type 0 where
  pub link_by_name : String → Run W Error Link
  pub link_set_name : Link → String → Run W Error Unit
  pub link_set_up : Link → Run W Error Unit
  pub link_set_down : Link → Run W Error Unit
  pub link_set_ns_fd : Link → Ns → Run W Error Unit
  pub link_set_vf_vlan : Link → ℤ → ℤ → Run W Error Unit

-- Packages os, ioutil and filepath. `lstat` tells whether the path is a symbolic link.
pub record Files (W : Type 0) : Type 0 where
  pub lstat : String → Run W Error Bool
  pub stat : String → Run W Error Unit
  pub is_not_exist : Error → Bool
  pub read_dir : String → Run W Error (List String)
  pub read_file : String → Run W Error String
  pub read_link : String → Run W Error String
  pub write_file : String → String → Run W Error Unit
  pub mkdir_all : String → Run W Error Unit
  pub remove : String → Run W Error Unit
  pub eval_symlinks : String → Run W Error String
  pub glob : String → Run W Error (List String)

-- Packages exec, os and rand. The error of `run_command` is what the command printed.
pub record Processes (W : Type 0) : Type 0 where
  pub start_command : List String → Run W Error Unit
  pub run_command : List String → Run W String Unit
  pub getenv : String → W → String
  pub setenv : String → String → Run W Error Unit
  pub intn : ℕ → Run W Error ℕ

-- `net.Interface`, by its name and the text of its hardware address
pub record NetInterface : Type 0 where
  pub name : String
  pub mac : String

-- Package ns
pub record Namespaces (W : Type 0) : Type 0 where
  pub get_ns : String → Run W Error Ns
  pub get_current_ns : Run W Error Ns
  pub set_ns : Ns → Run W Error Unit
  pub do_in_ns : Ns → Run W Error Unit → Run W Error Unit
  pub close_ns : Ns → Run W Error Unit

-- Package vishvananda/netns, and `net.Interfaces`
pub record Netns (W : Type 0) : Type 0 where
  pub get_netns : Run W Error Ns
  pub get_netns_from_path : String → Run W Error Ns
  pub set_netns : Ns → Run W Error Unit
  pub close_netns : Ns → Run W Error Unit
  pub interfaces : Run W Error (List NetInterface)

-- Package shm, and the clock. An open file is known by its name.
pub record Shm (W : Type 0) : Type 0 where
  pub create_exclusive : String → Run W Error String
  pub open_existing : String → Run W Error String
  pub unlink : String → Run W Error Unit
  pub close_file : String → Run W Error Unit
  pub sleep_one_second : Run W Error Unit

pub record Json : Type 0 where
  pub unmarshal_net_conf : String → Tried Error NetConf
  pub marshal_net_conf : NetConf → Tried Error String

-- Package ipam
pub record Ipam (W : Type 0) : Type 0 where
  pub exec_add : String → String → Run W Error IpamResult
  pub exec_del : String → String → Run W Error Unit
  pub configure_iface : String → IpamResult → Run W Error Unit

-- The results that the plugin prints, and the conversion of `current.NewResultFromResult`
pub record Results (W : Type 0) : Type 0 where
  pub new_result_from_result : Result020 → Tried Error CurrentResult
  pub print_result : CurrentResult → Run W Error Unit
  pub print_nil_result : Run W Error Unit

-- `rdma_hardware_info.PF` and `VF`, with the fields that the plugin reads, and
-- `knapsack_pod_placement.RdmaInterfaceRequest`
pub record VfInfo : Type 0 where
  pub vf_number : ℕ
  pub mac : String

pub record PfInfo : Type 0 where
  pub name : String
  pub vfs : List VfInfo

pub record InterfaceRequest : Type 0 where
  pub min_tx_rate : ℕ
  pub max_tx_rate : ℕ

-- The Kubernetes client, the hardware daemon and the placement of a pod. A configuration and a
-- client are known by a handle.
pub record Cluster (W : Type 0) : Type 0 where
  pub build_config_from_flags : String → String → Run W Error ℕ
  pub new_for_config : ℕ → Run W Error ℕ
  pub get_pod_annotation : ℕ → String → String → String → Run W Error String
  pub unmarshal_requests : String → Tried Error (List InterfaceRequest)
  pub query_node : String → String → ℕ → Run W Error (List PfInfo)
  pub place_pod : List InterfaceRequest → List PfInfo → List ℕ × Bool
  pub find_associated_mac : PfInfo → String → Option VfInfo

-- Package sriovnet. The handle of a PF is known by a number.
pub record Sriovnet (W : Type 0) : Type 0 where
  pub enable_sriov : String → Run W Error Unit
  pub get_pf_netdev_handle : String → Run W Error ℕ
  pub config_vfs : ℕ → Bool → Run W Error Unit

pub record Host (W : Type 0) : Type 0 where
  pub netlink : Netlink W
  pub open netlink use *
  pub files : Files W
  pub open files use *
  pub processes : Processes W
  pub open processes use *
  pub namespaces : Namespaces W
  pub open namespaces use *
  pub netns : Netns W
  pub open netns use *
  pub shm : Shm W
  pub open shm use *
  pub json : Json
  pub open json use *
  pub ipam : Ipam W
  pub open ipam use *
  pub results : Results W
  pub open results use *
  pub cluster : Cluster W
  pub open cluster use *
  pub sriovnet : Sriovnet W
  pub open sriovnet use *
