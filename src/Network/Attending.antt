-- ===== src/Network/Attending.antt =====
-- The calls of `cmdAdd` outside its loop leave the view of the devices as it is.
use rit_k8s_rdma_sriov_cni.Base.{ℕ, refl, String, [], ◌=?◌}
use rit_k8s_rdma_sriov_cni.Go.{Error, Run, Tried, success, failure, pure, fatal, ignore}
use rit_k8s_rdma_sriov_cni.Cni.{CurrentResult}
use rit_k8s_rdma_sriov_cni.Conf.{NetConf}
use rit_k8s_rdma_sriov_cni.Host.{Host}
use rit_k8s_rdma_sriov_cni.Mutex.{release_shm_mutex}
use rit_k8s_rdma_sriov_cni.Pod.{or_fatal, get_pod_requirements}
use rit_k8s_rdma_sriov_cni.Add.{set_ifname}
use rit_k8s_rdma_sriov_cni.Add.Interfaces.{CmdArgs}
use rit_k8s_rdma_sriov_cni.Network.{View, IsQuiet, Obeys}
use rit_k8s_rdma_sriov_cni.Network.Quiet.{
  bind-IsQuiet, pure-IsQuiet, if-IsQuiet, attempt-IsQuiet, orelse-IsQuiet, of_tried-IsQuiet,
  deferring-IsQuiet,
}

-- What is assumed of the other calls of an ADD: they change no device's place or name, and leave the
-- thread in its namespace.
pub record Attends {W : Type 0} (h : Host W) (v : View W) : Type 0 where
  pub configuring : (url path : String) → IsQuiet v (h.build_config_from_flags url path)
  pub connecting : (config : ℕ) → IsQuiet v (h.new_for_config config)
  pub annotating :
      (client : ℕ) (ns name key : String) → IsQuiet v (h.get_pod_annotation client ns name key)
  pub querying :
      (address port : String) (timeout : ℕ) → IsQuiet v (h.query_node address port timeout)
  pub setting_env : (name value : String) → IsQuiet v (h.setenv name value)
  pub printing : (result : CurrentResult) → IsQuiet v (h.print_result result)
  pub unlinking : (file : String) → IsQuiet v (h.unlink file)
  pub closing_file : (file : String) → IsQuiet v (h.close_file file)

module _ {W : Type 0} (h : Host W) (v : View W) (law : Obeys h v) (attends : Attends h v) where
  fatal-IsQuiet : {A : Type 0} → IsQuiet v {A = A} (fatal {E = Error})
  fatal-IsQuiet = record { same = λ w. (refl, refl) }

  pub or_fatal-IsQuiet :
      {A : Type 0} {m : Run W Error A} → IsQuiet v m → IsQuiet v (or_fatal h.cluster m)
  unfolding or_fatal
  or_fatal-IsQuiet q = bind-IsQuiet v (attempt-IsQuiet v q) given
    where
      given :
          {A : Type 0} (r : Tried Error A)
          → IsQuiet v {A = A} (elim r [ success a ↦ pure {E = Error} a | failure e ↦ fatal ])
      given (success a) = pure-IsQuiet v a
      given (failure e) = fatal-IsQuiet

  pub get_pod_requirements-IsQuiet :
      (name ns : String) → IsQuiet v (get_pod_requirements h.cluster name ns)
  unfolding get_pod_requirements
  get_pod_requirements-IsQuiet name ns =
      bind-IsQuiet v (or_fatal-IsQuiet (attends.configuring _ _)) λ config.
        bind-IsQuiet v (or_fatal-IsQuiet (attends.connecting config)) λ client.
          bind-IsQuiet v (or_fatal-IsQuiet (attends.annotating client ns name _)) λ annotation.
            if-IsQuiet v _ (pure-IsQuiet v []) (or_fatal-IsQuiet (of_tried-IsQuiet v _))

  pub set_ifname-IsQuiet : (args : CmdArgs) (n : NetConf) → IsQuiet v (set_ifname h args n)
  unfolding set_ifname
  set_ifname-IsQuiet args n =
      if-IsQuiet v (n.if0name =? "") {n = ignore (h.setenv "CNI_IFNAME" n.if0name)}
        (pure-IsQuiet v tt)
        (record { same = λ w. (attends.setting_env "CNI_IFNAME" n.if0name).same w })

  pub release_shm_mutex-IsQuiet : (file : String) → IsQuiet v (release_shm_mutex h.shm file)
  unfolding release_shm_mutex
  release_shm_mutex-IsQuiet file =
      deferring-IsQuiet v (attends.closing_file file) (orelse-IsQuiet v _ (attends.unlinking file))
