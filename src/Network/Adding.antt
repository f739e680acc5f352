-- ===== src/Network/Adding.antt =====
-- The loop of `cmdAdd` over the placements, however it ends, in the view of the devices.
use rit_k8s_rdma_sriov_cni.Base.{
  ℕ, suc, ◌≡◌, refl, sym, ap, ◌∙◌, subst, inl, inr, String, ◌<>◌, false, ◌||◌, Option, none, some,
  List, [], ◌∷◌, get_elem?,
}
use rit_k8s_rdma_sriov_cni.Go.{Error, Run, Tried, success, failure, pure, panics, attempt}
use rit_k8s_rdma_sriov_cni.Go.Laws.{anyhow}
use rit_k8s_rdma_sriov_cni.Go.Strconv.{itoa}
use rit_k8s_rdma_sriov_cni.Cni.{IpamResult, IpConfig020}
use rit_k8s_rdma_sriov_cni.Conf.{NetConf}
use rit_k8s_rdma_sriov_cni.Host.{Host, Ns, InterfaceRequest, PfInfo}
use rit_k8s_rdma_sriov_cni.Setup.{VfFailure, VfSetup, setup_vf}
use rit_k8s_rdma_sriov_cni.Add.Interfaces.{
  print_error, returns, CmdArgs, Progress, Ending, element, after_configure, configure, after_ipam,
  address_interface, after_setup, add_interface, add_interfaces,
}
use rit_k8s_rdma_sriov_cni.Add.Success.Needed.{add_interface-IsAdded}
use rit_k8s_rdma_sriov_cni.Network.{View, Devices, Obeys}
use rit_k8s_rdma_sriov_cni.Network.Taking.{Settles, IsAdded-Moved, or_left}
use rit_k8s_rdma_sriov_cni.Network.Confining.{Spares, Confined}
use rit_k8s_rdma_sriov_cni.Network.Sparing.{setup_vf-ConfinedTo}
use rit_k8s_rdma_sriov_cni.Network.Guarding.{Foreign, Foreign-same, Foreign-Only, was_there}
use rit_k8s_rdma_sriov_cni.Network.Sheltering.{
  IsStill, do_in_ns-IsStill, Sheltered, IsSheltered, still_call, quiet_call, bind-IsSheltered,
  attempt-IsSheltered, if-IsSheltered,
}

module _ {W : Type 0} (h : Host W) (v : View W) (law : Obeys h v) (spares : Spares h v)
    (settles : Settles h v) (printing_nil : IsStill v h.print_nil_result) (args : CmdArgs)
    (netns : Ns) (home : ℕ) (start : Devices) where
  abbrev Spared : {E A : Type 0} → Run W E A → Type 0
  Spared m = IsSheltered v home start m

  idle : {E A : Type 0} {m : Run W E A} → ((w : W) → (m w).1 ≡ w) → Spared m
  idle q = still_call v home start λ w. ap v.devices (q w)

  configured-Spared :
      (p : Progress) (if_name : String) (ip4 : IpConfig020) (t : Tried Error Unit)
      → Spared (after_configure h args netns p if_name ip4 t)
  unfolding after_configure
  configured-Spared p if_name ip4 (success a) = idle λ w. refl
  configured-Spared p if_name ip4 (failure e) = idle λ w. refl

  configure-Spared :
      (p : Progress) (if_name : String) (result : IpamResult) (ip4 : Option IpConfig020)
      → Spared (configure h args netns p if_name result ip4)
  unfolding configure
  configure-Spared p if_name result none = idle λ w. refl
  configure-Spared p if_name result (some ip4) =
      bind-IsSheltered v home start
        (attempt-IsSheltered v home start (
          still_call v home start
            (do_in_ns-IsStill h v spares netns _ (settles.configuring if_name result))))
        λ t. configured-Spared _ if_name ip4 t

  after_ipam-Spared :
      (p : Progress) (if_name : String) (t : Tried Error IpamResult)
      → Spared (after_ipam h args netns p if_name t)
  unfolding after_ipam
  after_ipam-Spared p if_name (success result) = configure-Spared p if_name result result.ip4
  after_ipam-Spared p if_name (failure e) = idle λ w. refl

  returns-Spared :
      (p : Progress) (o : Option Error) (e : Error) → Spared (returns {W = W} {A = Progress} p o e)
  returns-Spared p o e = idle λ w. refl

  address_interface-Spared :
      (p : Progress) (if_name : String) → Spared (address_interface h args netns p if_name)
  unfolding address_interface
  address_interface-Spared p if_name =
      if-IsSheltered v home start (p.conf.dpdk_mode || p.conf.l2_mode)
        (bind-IsSheltered v home start {m = attempt {F = Ending} h.print_nil_result}
          (attempt-IsSheltered v home start {E = Error} {A = Unit} {m = h.print_nil_result}
            (still_call v home start {m = h.print_nil_result} printing_nil))
          λ t. returns-Spared p none (print_error t))
        (bind-IsSheltered v home start
          (attempt-IsSheltered v home start
            (quiet_call v home start (settles.answering p.conf.ipam_type args.stdin_data)))
          λ t. after_ipam-Spared p if_name t)

  after_setup-Spared :
      (p : Progress) (if_name pf_name : String) (t : Tried VfFailure VfSetup)
      → Spared (after_setup h args netns p if_name pf_name t)
  unfolding after_setup
  after_setup-Spared p if_name pf_name (success s) = address_interface-Spared _ if_name
  after_setup-Spared p if_name pf_name (failure f) = idle λ w. refl

  -- From the thread's namespace
  setup_vf-Spares :
      (conf : NetConf) (pf_name pod_if_name cid : String) (request : InterfaceRequest) (w : W)
      → conf.dpdk_mode ≡ false
      → v.current w ≡ home
      → Sheltered v home start w
      → Sheltered v home start (setup_vf h conf pf_name pod_if_name cid netns request w).1
  setup_vf-Spares conf pf_name pod_if_name cid request w netdev here f =
      elim (setup_vf-ConfinedTo h v law spares settles conf pf_name pod_if_name cid netns request w
        netdev) [ inl same ↦ Foreign-same f same | inr (info, listed, change) ↦ changed change ]
    where
      changed : {info : String} {u : W} → Confined v info w u → Sheltered v home start u
      changed (inl same) = Foreign-same f same
      changed (inr (id, placed, only)) = Foreign-Only (was_there id f (placed.0 ∙ here)) f only

  module _ (requests : List InterfaceRequest) (pfs : List PfInfo) where
    abbrev at : {A : Type 0} → Option A → Run W Ending A
    at o = elim o [ none ↦ panics | some x ↦ pure x ]

    at-same : {A : Type 0} (o : Option A) (w : W) → (at o w).1 ≡ w
    at-same none w = refl
    at-same (some x) w = refl

    element-same : {A : Type 0} (l : List A) (i : ℕ) (w : W) → (element l i w).1 ≡ w
    unfolding element
    element-same l i w = at-same (get_elem? l i) w

    add_interface-Spares :
        (placement i : ℕ) (p : Progress) (w : W)
        → p.conf.dpdk_mode ≡ false
        → v.current w ≡ home
        → Sheltered v home start w
        → Sheltered v home start (add_interface h args netns requests pfs placement i p w).1
    unfolding add_interface
    add_interface-Spares placement i p w netdev here f =
        let if_name = "eth" <> itoa i in
        anyhow (Sheltered v home start) (element pfs placement) _ w
          (Foreign-same f (ap v.devices (element-same pfs placement w)))
          λ pf w1 got.
            let same1 : w1 ≡ w = sym (ap (λ r. r.1) got) ∙ element-same pfs placement w in
            let f1 = Foreign-same f (ap v.devices same1) in
            anyhow (Sheltered v home start) (element requests i) _ w1
              (Foreign-same f1 (ap v.devices (element-same requests i w1)))
              λ request w2 asked.
                let same2 : w2 ≡ w1 = sym (ap (λ r. r.1) asked) ∙ element-same requests i w1 in
                let f2 = Foreign-same f1 (ap v.devices same2) in
                let set_up =
                  setup_vf-Spares p.conf pf.name if_name args.container_id request w2 netdev
                    (ap v.current (same2 ∙ same1) ∙ here) f2 in
                anyhow (Sheltered v home start)
                  (attempt (setup_vf h p.conf pf.name if_name args.container_id netns request)) _ w2
                  set_up
                  λ t w3 ran.
                    (after_setup-Spared p if_name pf.name t).keeps w3
                      (subst (λ r. Sheltered v home start r.1) ran set_up)

    add_interfaces-Spares :
        (placements : List ℕ) (i : ℕ) (p : Progress) (w : W)
        → p.conf.dpdk_mode ≡ false
        → v.current w ≡ home
        → Sheltered v home start w
        → Sheltered v home start (add_interfaces h args netns requests pfs placements i p w).1
    unfolding add_interfaces
    add_interfaces-Spares [] i p w netdev here f = f
    add_interfaces-Spares (placement ∷ rest) i p w netdev here f =
        let once = add_interface-Spares placement i p w netdev here f in
        anyhow (Sheltered v home start) (add_interface h args netns requests pfs placement i p) _ w
          once
          λ p' w' done.
            let a = add_interface-IsAdded h args netns requests pfs placement i p p' w w' done in
            let (_, _, _, _, (_, _, put)) =
              IsAdded-Moved h v law settles args netns requests pfs placement i p p' w w' a in
            add_interfaces-Spares rest (suc i) p' w'
              (ap (λ q. q.conf.dpdk_mode) (sym a.progress)
                ∙ or_left h v law settles a.s.conf.dpdk_mode a.s.conf.l2_mode a.plain)
              (put.stays ∙ here) (subst (λ r. Sheltered v home start r.1) done once)

module _ {W : Type 0} (h : Host W) (v : View W) (law : Obeys h v) (spares : Spares h v)
    (settles : Settles h v) (printing_nil : IsStill v h.print_nil_result) (args : CmdArgs)
    (netns : Ns) (requests : List InterfaceRequest) (pfs : List PfInfo) where
  -- The loop of an ADD over the placements, outside DPDK mode at the start, whether it succeeds, fails,
  -- panics or ends the process: every device that was not in the thread's namespace keeps its
  -- namespace and its name. It is assumed that the host obeys the view, that a failed move or change of
  -- name changes no other device and a failed `Do` has run its function in the namespace or not at all,
  -- that the directory of a VF lists no device or one, not called eth0, and that the IPAM plugin, the
  -- configuration of an interface and the printing of the empty result change no place or name.
  pub add_interfaces-Foreign :
      (placements : List ℕ) (i : ℕ) (p : Progress) (w : W)
      → p.conf.dpdk_mode ≡ false
      → Foreign
          (v.current w)
          (v.devices w)
          (v.devices (add_interfaces h args netns requests pfs placements i p w).1)
  add_interfaces-Foreign placements i p w netdev =
      add_interfaces-Spares h v law spares settles printing_nil args netns (v.current w)
        (v.devices w) requests pfs placements i p w netdev refl λ j out. (refl, refl)
