-- ===== src/Add/Interfaces.antt =====
-- The loop of `cmdAdd` over the pod's interfaces, and the calls that it defers.
use rit_k8s_rdma_sriov_cni.Base.{
  ℕ, suc, String, ◌<>◌, Option, none, some, List, [], ◌∷◌, ◌++◌, ◌||◌, get_elem?, if◌then◌else◌,
}
use rit_k8s_rdma_sriov_cni.Go.{
  Error, errorf, wrapf, Run, Tried, success, failure, pure, fail, panics, ◌>>=◌, ◌>>◌, attempt,
  ignore,
}
use rit_k8s_rdma_sriov_cni.Go.Strconv.{itoa}
use rit_k8s_rdma_sriov_cni.Conf.{NetConf}
use rit_k8s_rdma_sriov_cni.Cni.{Dns, IpConfig020, IpamResult, Result020, CurrentResult}
use rit_k8s_rdma_sriov_cni.Host.{Host, Ns, InterfaceRequest, PfInfo}
use rit_k8s_rdma_sriov_cni.Setup.{VfFailure, VfSetup, setup_vf}
use rit_k8s_rdma_sriov_cni.Release.{release_vf}

-- `skel.CmdArgs`, with the fields that the commands read
pub record CmdArgs : Type 0 where
  pub container_id : String
  pub netns : String
  pub cni_args : String
  pub stdin_data : String

-- A deferred call of the loop: the rollback of an interface, or `ipam.ExecDel`
pub data Deferred : Type 0 where
  rollback : (if_name pf_name : String) → Option ℕ → Deferred
  release_ipam : Deferred

-- The variables of the loop; the call that was deferred last comes first.
pub record Progress : Type 0 where
  pub conf : NetConf
  pub deferred : List Deferred
  pub final : Option CurrentResult

-- An early return: the error that is returned, and the value of `err`, which the deferred calls read
pub record Ending : Type 0 where
  pub progress : Progress
  pub err_var : Option Error
  pub returned : Error

abbrev pub empty_dns : Dns
empty_dns = record { nameservers = []; domain = ""; search_list = []; options = [] }

-- The result of the IPAM plugin as one of CNI 0.2.0
unfoldable pub to_020 : Dns → IpConfig020 → Result020
to_020 dns ip4 = record {
  cni_version = "0.2.0";
  ip4 = some (record { ip = ip4.ip; gateway = ip4.gateway; routes = ip4.routes });
  ip6 = none;
  dns = dns;
}

unfoldable pub append_ip : String → Option IpConfig020 → CurrentResult → CurrentResult
append_ip version none r = r
append_ip version (some c) r = record r {
  ips = r.ips ++ record { version = version; address = c.ip; gateway = c.gateway } ∷ [];
  routes = r.routes ++ c.routes;
}

-- The first converted result is taken whole; of a later one only addresses and routes.
unfoldable pub merged : Option CurrentResult → CurrentResult → Result020 → CurrentResult
unfolding append_ip
merged none new r = new
merged (some final) new r = append_ip "6" r.ip6 (append_ip "4" r.ip4 final)

-- A result that is not converted is dropped, with the interface's name.
unfoldable pub collect :
    (Result020 → Tried Error CurrentResult)
    → String
    → Dns
    → IpConfig020
    → Option CurrentResult
    → Option CurrentResult
unfolding merged to_020
collect convert if_name dns ip4 final = elim (convert (to_020 dns ip4)) [
  | failure e ↦ final
  | success new ↦
      let r = merged final new (to_020 dns ip4) in
      some (record r { interfaces = r.interfaces ++ record { name = if_name } ∷ [] })
]

-- An index out of range panics.
unfoldable pub element : {W A : Type 0} → List A → ℕ → Run W Ending A
element xs i = elim (get_elem? xs i) [ none ↦ panics | some x ↦ pure x ]

abbrev pub returns : {W A : Type 0} → Progress → Option Error → Error → Run W Ending A
returns p err_var e = fail (record { progress = p; err_var = err_var; returned = e })

-- `fmt.Errorf("…%s", err)` of an error that may be nil
unfoldable pub print_error : Tried Error Unit → Error
print_error (success _) = errorf "error setting dpdk mode: %s" ("%!s(<nil>)" ∷ [])
print_error (failure e) = wrapf "error setting dpdk mode: %s" [] e

module _ {W : Type 0} (h : Host W) (args : CmdArgs) (netns : Ns) where
  unfoldable pub after_configure :
      Progress → String → IpConfig020 → Tried Error Unit → Run W Ending Progress
  after_configure p if_name ip4 (failure e) = returns p (some e) e
  after_configure p if_name ip4 (success _) =
      pure (record p { final = collect h.new_result_from_result if_name p.conf.dns ip4 p.final })

  -- An IPAM result must have an IPv4 address; only then `ipam.ExecDel` is deferred.
  unfoldable pub configure :
      Progress → String → IpamResult → Option IpConfig020 → Run W Ending Progress
  configure p if_name result none =
      returns p none (errorf "IPAM plugin returned missing IPv4 config" [])
  configure p if_name result (some ip4) = do
    configured ← attempt (h.do_in_ns netns (h.configure_iface if_name result))
    after_configure (record p { deferred = release_ipam ∷ p.deferred }) if_name ip4 configured

  unfoldable pub after_ipam : Progress → String → Tried Error IpamResult → Run W Ending Progress
  after_ipam p if_name (failure e) = returns p (some e) (
      wrapf "failed to set up IPAM plugin type %q from the device %q: %v"
        (p.conf.ipam_type ∷ if_name ∷ []) e)
  after_ipam p if_name (success result) = configure p if_name result result.ip4

  -- With the VF in the pod. In DPDK mode and in L2 mode the command fails; `err` is nil then.
  unfoldable pub address_interface : Progress → String → Run W Ending Progress
  unfolding after_ipam configure after_configure print_error
  address_interface p if_name =
      if p.conf.dpdk_mode || p.conf.l2_mode
      then (do printed ← attempt h.print_nil_result; returns p none (print_error printed))
      else (do
        result ← attempt (h.exec_add p.conf.ipam_type args.stdin_data)
        after_ipam p if_name result)

  -- The rollback is deferred whether the VF was taken or not.
  unfoldable pub after_setup :
      Progress → String → String → Tried VfFailure VfSetup → Run W Ending Progress
  after_setup p if_name pf_name (failure f) =
      returns
        (record p { conf = f.conf; deferred = rollback if_name pf_name f.vf_idx ∷ p.deferred })
        (some f.cause)
        (wrapf "failed to set up pod interface %q from the device %s: %v" (if_name ∷ pf_name ∷ [])
          f.cause)
  after_setup p if_name pf_name (success s) =
      address_interface
        (record p {
          conf = s.conf;
          deferred = rollback if_name pf_name (some s.vf_idx) ∷ p.deferred;
        })
        if_name

  -- The body of the loop
  unfoldable pub add_interface :
      List InterfaceRequest → List PfInfo → ℕ → ℕ → Progress → Run W Ending Progress
  add_interface requests pfs placement i p = do
    pf ← element pfs placement
    request ← element requests i
    let if_name = "eth" <> itoa i
    taken ← attempt (setup_vf h p.conf pf.name if_name args.container_id netns request)
    after_setup p if_name pf.name taken

  unfoldable pub add_interfaces :
      List InterfaceRequest → List PfInfo → List ℕ → ℕ → Progress → Run W Ending Progress
  add_interfaces requests pfs [] i p = pure p
  add_interfaces requests pfs (placement ∷ rest) i p = do
    p' ← add_interface requests pfs placement i p
    add_interfaces requests pfs rest (suc i) p'

  -- A rollback looks whether the interface is in the pod, which overwrites `err`.
  unfoldable pub look_up : String → Run W Error (Tried Error Unit)
  look_up if_name = attempt (h.do_in_ns netns (do h.link_by_name if_name; pure tt))

  -- The deferred calls in the order in which they run, with the value of `err`
  unfoldable pub run_deferred_calls : NetConf → Option Error → List Deferred → Run W Error Unit
  unfolding look_up
  run_deferred_calls conf err_var [] = pure tt
  run_deferred_calls conf none (_ ∷ rest) = run_deferred_calls conf none rest
  run_deferred_calls conf (some e) (release_ipam ∷ rest) = do
    ignore (h.exec_del conf.ipam_type args.stdin_data)
    run_deferred_calls conf (some e) rest
  run_deferred_calls conf (some e) (rollback if_name pf_name vf_num ∷ rest) = do
    seen ← look_up if_name
    elim seen [
      | failure e' ↦ run_deferred_calls conf (some e') rest
      | success _ ↦ do
        ignore (release_vf h conf if_name args.container_id netns pf_name vf_num)
        run_deferred_calls conf none rest
    ]
