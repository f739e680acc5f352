-- ===== src/Fixipam/Answers.antt =====
-- When the plugin fixipam answers, and with what.
use rit_k8s_rdma_sriov_cni.Base.{
  ℕ, ◌≡◌, ◌↔◌, refl, sym, ap, ◌∙◌, String, true, false, none, some, List, [], arith, ◌=?◌,
  if◌then◌else◌,
}
use rit_k8s_rdma_sriov_cni.Go.{errorf, ok, err, panic, success}
use rit_k8s_rdma_sriov_cni.Go.Laws.{by_parts, bind_eq}
use rit_k8s_rdma_sriov_cni.Net.{Ip, ip_equal, contains}
use rit_k8s_rdma_sriov_cni.Fixipam.{
  IpamConfig, NetWithIpam, Library, validate_range_ip, with_args, named_config, load_ipam_config,
  requested_ip, reply, answer, cmd_add, cmd_del,
}

-- The address may be handed out: it is asked for, lies in the subnet, and is not the gateway's.
pub record IsGrantable (c : IpamConfig) (ip gw : List ℕ) : Type 0 where
  pub asked : requested_ip c.args ≡ some ip
  pub gateway : c.gateway ≡ some gw
  pub not_gateway : ip_equal (some gw) (some ip) ≡ false
  pub in_subnet : contains c.subnet (some ip) ≡ true

module _ {W : Type 0} (l : Library W) where
  answer-ok :
      (c : IpamConfig) (ip : Ip) (w : W)
      → ip ≡ requested_ip c.args
      → (answer l c ip w).0 ≡ ok tt
      → (b gw : List ℕ) × IsGrantable c b gw
        × (answer l c ip w ≡ l.print_ipam_result (reply c (some b)) w)
  unfolding answer validate_range_ip
  answer-ok c none w asked e = cc
  answer-ok c (some ip) w asked e = ground arith

  answer_grants :
      (c : IpamConfig) (ip gw : List ℕ) (w : W)
      → IsGrantable c ip gw
      → answer l c (some ip) w ≡ l.print_ipam_result (reply c (some ip)) w
  unfolding answer validate_range_ip
  answer_grants c ip gw w g = ground arith

  cmd_add-ok :
      (stdin_data args : String) (w : W)
      → (cmd_add l stdin_data args w).0 ≡ ok tt
      → (c : IpamConfig) × (ip : List ℕ) × (gw : List ℕ) × (v : W) × (load_ipam_config l stdin_data
            args w
          ≡ (ok c, v))
        × IsGrantable c ip gw
        × (cmd_add l stdin_data args w ≡ l.print_ipam_result (reply c (some ip)) v)
  unfolding cmd_add
  cmd_add-ok stdin_data args w e =
      by_parts (load_ipam_config l stdin_data args) _ w e λ c v loaded rest.
        let (ip, gw, granted, printed) = answer-ok c (requested_ip c.args) v refl rest in
        (
          c,
          ip,
          gw,
          v,
          loaded,
          granted,
          bind_eq (load_ipam_config l stdin_data args) _ w loaded ∙ printed,
        )

  cmd_add_grants :
      (stdin_data args : String) (c : IpamConfig) (ip gw : List ℕ) (w v : W)
      → load_ipam_config l stdin_data args w ≡ (ok c, v)
      → IsGrantable c ip gw
      → cmd_add l stdin_data args w ≡ l.print_ipam_result (reply c (some ip)) v
  unfolding cmd_add
  cmd_add_grants stdin_data args c ip gw w v loaded g =
      bind_eq (load_ipam_config l stdin_data args) _ w loaded
      ∙ ap (λ asked. answer l c asked v) g.asked
      ∙ answer_grants c ip gw v g

  -- What the plugin does if it answers: it has loaded a configuration whose requested address may be
  -- handed out, and what it prints is printed.
  pub record Grants (stdin_data args : String) (w u : W) : Type 0 where
    pub config : IpamConfig
    pub ip : List ℕ
    pub gw : List ℕ
    pub loaded : W
    pub loads : load_ipam_config l stdin_data args w ≡ (ok config, loaded)
    pub grantable : IsGrantable config ip gw
    pub prints : l.print_ipam_result (reply config (some ip)) loaded ≡ (ok tt, u)

  pub cmd_add-Grants_iff :
      (stdin_data args : String) (w u : W)
      → (cmd_add l stdin_data args w ≡ (ok tt, u)) ↔ Grants stdin_data args w u
  cmd_add-Grants_iff stdin_data args w u = (
    λ e.
        let (c, ip, gw, v, loads, grantable, printed) =
          cmd_add-ok stdin_data args w (ap (λ r. r.0) e) in
        record {
          config = c;
          ip = ip;
          gw = gw;
          loaded = v;
          loads = loads;
          grantable = grantable;
          prints = sym printed ∙ e;
        },
    λ g.
        cmd_add_grants stdin_data args g.config g.ip g.gw w g.loaded g.loads g.grantable ∙ g.prints,
  )

  -- A configuration without the key `ipam` is an error if there are no arguments; with arguments the
  -- plugin panics, on ADD and on DEL.
  pub missing_ipam :
      (stdin_data args : String) (n : NetWithIpam) (w : W)
      → l.unmarshal_net stdin_data ≡ success n
      → n.ipam ≡ none
      → (cmd_add l stdin_data args w ≡ (
          if args =? "" then (err (errorf "IPAM config missing 'ipam' key" []), w) else (panic, w)))
        × (cmd_del l stdin_data args w ≡ (
            if args =? ""
            then (err (errorf "IPAM config missing 'ipam' key" []), w)
            else (panic, w)))
  unfolding cmd_add cmd_del load_ipam_config with_args named_config
  missing_ipam stdin_data args n w parsed missing = (ground arith, ground arith)
