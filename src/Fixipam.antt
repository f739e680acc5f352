-- ===== src/Fixipam.antt =====
-- The IPAM plugin that hands out the requested address: fixipam/config.go, fixipam/main.go.
pub mod Answers
use rit_k8s_rdma_sriov_cni.Base.{String, Option, none, some, List, [], ◌=?◌, if◌then◌else◌}
use rit_k8s_rdma_sriov_cni.Go.{Error, errorf, Run, Tried, pure, fail, panics, of_tried, ◌>>=◌, ◌>>◌}
use rit_k8s_rdma_sriov_cni.Net.{Ip, IpNet, ip_equal, contains}
use rit_k8s_rdma_sriov_cni.Cni.{Route, IpamResult}
use rit_k8s_rdma_sriov_cni.Add.Interfaces.{empty_dns}

-- `IPAMArgs`; the embedded `CommonArgs` are not read.
pub record IpamArgs : Type 0 where
  pub ip : Ip

pub record IpamConfig : Type 0 where
  pub name : String
  pub plugin_type : String
  pub subnet : IpNet
  pub gateway : Ip
  pub routes : List Route
  pub args : Option IpamArgs

-- `Net`, as `json.Unmarshal` leaves it
pub record NetWithIpam : Type 0 where
  pub name : String
  pub ipam : Option IpamConfig

-- What the plugin calls: `json.Unmarshal`, `types.LoadArgs` for the `IP` of the arguments, and
-- `Result.Print`.
pub record Library (W : Type 0) : Type 0 where
  pub unmarshal_net : String → Tried Error NetWithIpam
  pub load_args : String → Tried Error Ip
  pub print_ipam_result : IpamResult → Run W Error Unit

unfoldable pub validate_range_ip : {W : Type 0} → Ip → IpNet → Run W Error Unit
validate_range_ip ip ipnet =
    if contains ipnet ip then pure tt else fail (errorf "%s not in network: %s" [])

-- The address that is asked for; nil if there are no arguments.
abbrev pub requested_ip : Option IpamArgs → Ip
requested_ip none = none
requested_ip (some a) = a.ip

-- What is printed
abbrev pub reply : IpamConfig → Ip → IpamResult
reply c ip = record {
  ip4 = some (record {
    ip = record { ip = ip; mask = c.subnet.mask };
    gateway = c.gateway;
    routes = c.routes;
  });
  ip6 = none;
  dns = empty_dns;
}

module _ {W : Type 0} (l : Library W) where
  -- `n.IPAM.Args = &IPAMArgs{}` comes before the test of `n.IPAM` for nil.
  unfoldable pub with_args : String → Option IpamConfig → Run W Error (Option IpamConfig)
  with_args args ipam = if args =? "" then pure ipam else elim ipam [
    | none ↦ panics
    | some c ↦ do
      ip ← of_tried (l.load_args args)
      pure (some (record c { args = some (record { ip = ip }) }))
  ]

  unfoldable pub named_config : String → Option IpamConfig → Run W Error IpamConfig
  named_config name none = fail (errorf "IPAM config missing 'ipam' key" [])
  named_config name (some c) = pure (record c { name = name })

  unfoldable pub load_ipam_config : String → String → Run W Error IpamConfig
  load_ipam_config bytes args = do
    n ← of_tried (l.unmarshal_net bytes)
    ipam ← with_args args n.ipam
    named_config n.name ipam

  unfoldable pub answer : IpamConfig → Ip → Run W Error Unit
  answer c none = fail (errorf "request IP can not be empty" [])
  answer c (some ip) = elim c.gateway [
    | none ↦ fail (errorf "gateway can not be empty" [])
    | some gw ↦
        if ip_equal (some gw) (some ip)
        then fail (errorf "requested IP must differ gateway IP" [])
        else do
          validate_range_ip (some ip) (record { ip = c.subnet.ip; mask = c.subnet.mask })
          l.print_ipam_result (reply c (some ip))
  ]

  unfoldable pub cmd_add : String → String → Run W Error Unit
  cmd_add stdin_data args = do c ← load_ipam_config stdin_data args; answer c (requested_ip c.args)

  unfoldable pub cmd_del : String → String → Run W Error Unit
  cmd_del stdin_data args = do load_ipam_config stdin_data args; pure tt
