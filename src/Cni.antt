-- ===== src/Cni.antt =====
-- The data that the plugins exchange with the container runtime and with IPAM plugins: the result
-- types of CNI 0.2.0 (`vendor/…/cni/pkg/types`, `sriov/cni/types/types020`) and of CNI 0.4.0
-- (`sriov/cni/types`, `sriov/cni/types/current`). Their functions belong to the CNI library.
use rit_k8s_rdma_sriov_cni.Base.{String, Option, List}
use rit_k8s_rdma_sriov_cni.Net.{Ip, IpNet}

pub record Dns : Type 0 where
  pub nameservers : List String
  pub domain : String
  pub search_list : List String
  pub options : List String

pub record Route : Type 0 where
  pub dst : IpNet
  pub gw : Ip

-- `IPConfig` of CNI 0.2.0, which holds its routes
pub record IpConfig020 : Type 0 where
  pub ip : IpNet
  pub gateway : Ip
  pub routes : List Route

-- `types.Result`, what an IPAM plugin returns
pub record IpamResult : Type 0 where
  pub ip4 : Option IpConfig020
  pub ip6 : Option IpConfig020
  pub dns : Dns

-- `types020.Result`
pub record Result020 : Type 0 where
  pub cni_version : String
  pub ip4 : Option IpConfig020
  pub ip6 : Option IpConfig020
  pub dns : Dns

-- `current.IPConfig`; no code of the plugin sets its index of an interface.
pub record IpConfig : Type 0 where
  pub version : String
  pub address : IpNet
  pub gateway : Ip

-- `current.Interface`; the plugin sets only the name.
pub record Interface : Type 0 where
  pub name : String

-- `current.Result`
pub record CurrentResult : Type 0 where
  pub cni_version : String
  pub interfaces : List Interface
  pub ips : List IpConfig
  pub routes : List Route
  pub dns : Dns
