-- ===== src/Network/Rolling.antt =====
-- The calls that a failed loop of `cmdAdd` has deferred leave the devices of other namespaces alone.
use rit_k8s_rdma_sriov_cni.Base.{
  ℕ, zero, suc, ◌+◌, ◌≡◌, refl, sym, ap, ◌∙◌, String, Bool, Option, none, some, List, [], ◌∷◌,
}
use rit_k8s_rdma_sriov_cni.Go.{Error, Run, Tried, ◌>>◌, wrapf, ignore, success, failure, ◌orelse◌}
use rit_k8s_rdma_sriov_cni.Go.Laws.{anyhow, orelse-ok_eq}
use rit_k8s_rdma_sriov_cni.Conf.{NetConf, max_shared_vf}
use rit_k8s_rdma_sriov_cni.Host.{Host, Ns}
use rit_k8s_rdma_sriov_cni.Release.{
  round_names, reset_rates, release_rounds, release_netdev, release_vf,
}
use rit_k8s_rdma_sriov_cni.Add.Interfaces.{
  CmdArgs, Deferred, release_ipam, rollback, look_up, run_deferred_calls,
}
use rit_k8s_rdma_sriov_cni.Network.{View, Devices, IsQuiet, Obeys}
use rit_k8s_rdma_sriov_cni.Network.Quiet.{
  bind-IsQuiet, if-IsQuiet, pure-IsQuiet, orelse-IsQuiet, get_shared_pf-IsQuiet,
  get_net_conf-IsQuiet, sees_shared-IsQuiet, set_vf_bandwidth_limits-IsQuiet,
}
use rit_k8s_rdma_sriov_cni.Network.Confining.{Spares}
use rit_k8s_rdma_sriov_cni.Network.Guarding.{
  Foreign-same, Guards, bind-Guards, quiet-Guards, if-Guards, orelse-Guards, do_in_ns-Guards,
}
use rit_k8s_rdma_sriov_cni.Network.Isolating.{detach-Guards}
use rit_k8s_rdma_sriov_cni.Network.Sheltering.{
  do_in_ns-IsStill, Shelters, Sheltered, IsSheltered, still_call, quiet_call, bind-IsSheltered,
  orelse-IsSheltered, attempt-IsSheltered, if-IsSheltered,
}
use rit_k8s_rdma_sriov_cni.Network.Leaving.{release_dpdk-IsSheltered}

module _ {W : Type 0} (h : Host W) (v : View W) (law : Obeys h v) (spares : Spares h v)
    (shelters : Shelters h v) (args : CmdArgs) (pod : ℕ) (start : Devices) where
  round_names-IsQuiet :
      (pod_if_name pf_name : String) (i : ℕ) → IsQuiet v (round_names h pod_if_name pf_name i)
  unfolding round_names
  round_names-IsQuiet pod_if_name pf_name i =
      if-IsQuiet v _
        (bind-IsQuiet v (orelse-IsQuiet v _ (get_shared_pf-IsQuiet h v law pf_name))
          λ shared_pf. pure-IsQuiet v _)
        (pure-IsQuiet v _)

  reset_rates-Guards :
      (initns : Ns) (pf_name : String) (vf_number : Option ℕ)
      → Guards v pod start (reset_rates h initns pf_name vf_number)
  unfolding reset_rates
  reset_rates-Guards initns pf_name none = quiet-Guards v pod start (pure-IsQuiet v tt)
  reset_rates-Guards initns pf_name (some vf) = orelse-Guards v pod start _ (
      do_in_ns-Guards h v law spares pod start initns _
        (orelse-IsQuiet v _ (set_vf_bandwidth_limits-IsQuiet h v law pf_name _ "0" "0")))

  release_rounds-Guards :
      (conf : NetConf) (pod_if_name : String) (initns : Ns) (shared : Bool) (pf_name : String)
      (vf_number : Option ℕ) (left i : ℕ)
      → Guards v pod start
          (release_rounds h conf pod_if_name initns shared pf_name vf_number left i)
  unfolding release_rounds
  release_rounds-Guards conf pod_if_name initns shared pf_name vf_number zero i =
      quiet-Guards v pod start (pure-IsQuiet v tt)
  release_rounds-Guards conf pod_if_name initns shared pf_name vf_number (suc left) i =
      bind-Guards v pod start (quiet-Guards v pod start (round_names-IsQuiet pod_if_name pf_name i))
        λ names.
          bind-Guards v pod start
            (detach-Guards h v law spares pod start conf names.0 names.1 initns)
            λ _. bind-Guards v pod start (reset_rates-Guards initns names.1 vf_number) λ _.
              if-Guards v pod start shared
                (release_rounds-Guards conf pod_if_name initns shared pf_name vf_number left
                  (i + 1))
                (quiet-Guards v pod start (pure-IsQuiet v tt))

  release_netdev-IsSheltered :
      (conf : NetConf) (pod_if_name : String) (netns : Ns) (pf_name : String) (vf_number : Option ℕ)
      → v.space netns ≡ pod
      → IsSheltered v pod start (release_netdev h conf pod_if_name netns pf_name vf_number)
  unfolding release_netdev
  release_netdev-IsSheltered conf pod_if_name netns pf_name vf_number there =
      bind-IsSheltered v pod start
        (orelse-IsSheltered v pod start _ (quiet_call v pod start law.getting_current))
        λ initns. record {
          keeps = λ w f.
              anyhow (Sheltered v pod start)
                (h.set_ns netns orelse wrapf "failed to enter netns %q: %v" []) _ w
                (Foreign-same f (law.setting_ns netns w))
                λ _ w1 entered.
                  let set = orelse-ok_eq (h.set_ns netns) _ w entered in
                  let f1 =
                    Foreign-same f (ap (λ r. v.devices r.1) (sym set) ∙ law.setting_ns netns w) in
                  ((bind-Guards v pod start
                      (quiet-Guards v pod start (sees_shared-IsQuiet h v law conf pod_if_name))
                      λ shared.
                        release_rounds-Guards conf pod_if_name initns shared pf_name vf_number
                          max_shared_vf 1).runs
                    w1 (f1, law.sets_ns netns w w1 set ∙ there)).0;
        }

  release_vf-IsSheltered :
      (conf : NetConf) (pod_if_name cid : String) (netns : Ns) (pf_name : String)
      (vf_number : Option ℕ)
      → v.space netns ≡ pod
      → IsSheltered v pod start (release_vf h conf pod_if_name cid netns pf_name vf_number)
  unfolding release_vf
  release_vf-IsSheltered conf pod_if_name cid netns pf_name vf_number there =
      bind-IsSheltered v pod start
        (quiet_call v pod start (get_net_conf-IsQuiet h v law cid pod_if_name conf.cni_dir))
        λ nf.
          if-IsSheltered v pod start nf.dpdk_mode
            (release_dpdk-IsSheltered h v law spares shelters args pod start nf pf_name)
            (release_netdev-IsSheltered conf pod_if_name netns pf_name vf_number there)

  ignore-IsSheltered :
      {E A : Type 0} {m : Run W E A}
      → IsSheltered v pod start m
      → IsSheltered v pod start {E = Error} (ignore m)
  ignore-IsSheltered k = record { keeps = λ w f. k.keeps w f }

  look_up-IsSheltered :
      (netns : Ns) (if_name : String) → IsSheltered v pod start (look_up h args netns if_name)
  unfolding look_up
  look_up-IsSheltered netns if_name = attempt-IsSheltered v pod start (
      still_call v pod start (
        do_in_ns-IsStill h v spares netns _
          (bind-IsQuiet v (law.looking if_name) λ _. pure-IsQuiet v tt)))

  after_look-IsSheltered :
      (netns : Ns) (conf : NetConf) (if_name pf_name : String) (vf_num : Option ℕ)
      (rest : List Deferred)
      → v.space netns ≡ pod
      → ((err_var : Option Error)
          → IsSheltered v pod start (run_deferred_calls h args netns conf err_var rest))
      → (seen : Tried Error Unit)
      → IsSheltered v pod start {E = Error} {A = Unit} (elim seen [
        | failure e' ↦ run_deferred_calls h args netns conf (some e') rest
        | success _ ↦ do
          ignore (release_vf h conf if_name args.container_id netns pf_name vf_num)
          run_deferred_calls h args netns conf none rest
      ])
  after_look-IsSheltered netns conf if_name pf_name vf_num rest there later (failure e') =
      later (some e')
  after_look-IsSheltered netns conf if_name pf_name vf_num rest there later (success a) =
      bind-IsSheltered v pod start
        (ignore-IsSheltered
          (release_vf-IsSheltered conf if_name args.container_id netns pf_name vf_num there))
        λ _. later none

  pub run_deferred_calls-IsSheltered :
      (netns : Ns) (conf : NetConf) (err_var : Option Error) (deferred : List Deferred)
      → v.space netns ≡ pod
      → IsSheltered v pod start (run_deferred_calls h args netns conf err_var deferred)
  unfolding run_deferred_calls look_up
  run_deferred_calls-IsSheltered netns conf err_var [] there = still_call v pod start λ w. refl
  run_deferred_calls-IsSheltered netns conf none (d ∷ rest) there =
      run_deferred_calls-IsSheltered netns conf none rest there
  run_deferred_calls-IsSheltered netns conf (some e) (release_ipam ∷ rest) there =
      bind-IsSheltered v pod start
        (ignore-IsSheltered
          (still_call v pod start (shelters.returning conf.ipam_type args.stdin_data)))
        λ _. run_deferred_calls-IsSheltered netns conf (some e) rest there
  run_deferred_calls-IsSheltered netns conf (some e) (rollback if_name pf_name vf_num ∷ rest)
        there =
      bind-IsSheltered v pod start {m = look_up h args netns if_name}
        (look_up-IsSheltered netns if_name)
        (after_look-IsSheltered netns conf if_name pf_name vf_num rest there
          λ o. run_deferred_calls-IsSheltered netns conf o rest there)
