-- ===== src/Del/Releasing.antt =====
-- What the loop of `cmdDel` over the interfaces of the pod's namespace does.
use text.Mathlib.Text.{starts_with}
use Prim.Native.String.{len, slice}
use rit_k8s_rdma_sriov_cni.Base.{
  ◌≡◌, refl, sym, ap, ◌∙◌, subst, ◌↔◌, inl, inr, String, Bool, true, false, Bool-cases, false≢true,
  List, [], ◌∷◌, Option, none, some, if◌then◌else◌,
}
use rit_k8s_rdma_sriov_cni.Go.{Error, ok, err, Tried, success, failure, attempt}
use rit_k8s_rdma_sriov_cni.Go.Laws.{
  by_parts_eq, bind_eq, attempt_eq, attempt_eq_err, attempt-success_eq, attempt-failure_eq, if_true,
  if_false,
}
use rit_k8s_rdma_sriov_cni.Go.Strconv.{ℤ, parse_int}
use rit_k8s_rdma_sriov_cni.Conf.{NetConf}
use rit_k8s_rdma_sriov_cni.Host.{Host, NetInterface, PfInfo}
use rit_k8s_rdma_sriov_cni.ReleaseCustom.{ReleaseFailure, release_vf_custom}
use rit_k8s_rdma_sriov_cni.Add.Interfaces.{CmdArgs}
use rit_k8s_rdma_sriov_cni.Del.{
  is_pod_interface, after_release, release_interface, release_interfaces,
}

-- The name is `eth` and then a number.
abbrev pub IsPodName : String → Type 0
IsPodName name =
    (starts_with name "eth" ≡ true) × ((z : ℤ) × (parse_int (slice name 3 (len name)) ≡ some z))

numbered : (o : Option ℤ) → elim o [ none ↦ false | some _ ↦ true ] ≡ true → (z : ℤ) × (o ≡ some z)
numbered none e = absurd (false≢true e)
numbered (some z) e = (z, refl)

is_pod_interface-IsPodName : (name : String) → is_pod_interface name ≡ true → IsPodName name
unfolding is_pod_interface
is_pod_interface-IsPodName name e =
    prefixed (starts_with name "eth") (parse_int (slice name 3 (len name))) e
  where
    prefixed :
        (b : Bool) (o : Option ℤ)
        → (if b then elim o [ none ↦ false | some _ ↦ true ] else false) ≡ true
        → (b ≡ true) × ((z : ℤ) × (o ≡ some z))
    prefixed true o f = (refl, numbered o f)
    prefixed false o f = absurd (false≢true f)

IsPodName-is_pod_interface : (name : String) → IsPodName name → is_pod_interface name ≡ true
unfolding is_pod_interface
IsPodName-is_pod_interface name (prefix, (z, number)) = rw (prefix, number) refl

module _ {W : Type 0} (h : Host W) (args : CmdArgs) (pfs : List PfInfo) where
  -- One interface after the other, from one state to another. An interface with another name is
  -- passed over. One of the pod's is released, and whether that succeeds or fails, the loop goes on
  -- with the `Sharedvf` that it has left.
  pub data Releases : NetConf → List NetInterface → W → W → Type 0 where
    all_done : {n : NetConf} {w : W} → Releases n [] w w
    passes :
        {n : NetConf} {intf : NetInterface} {rest : List NetInterface} {w u : W}
        → ¬ IsPodName intf.name
        → Releases n rest w u
        → Releases n (intf ∷ rest) w u
    releases :
        {n : NetConf} {intf : NetInterface} {rest : List NetInterface} {w x u : W} (shared : Bool)
        → IsPodName intf.name
        → release_vf_custom h n intf args.container_id args.netns pfs w ≡ (ok shared, x)
        → Releases (record n { shared_vf = shared }) rest x u
        → Releases n (intf ∷ rest) w u
    fails :
        {n : NetConf} {intf : NetInterface} {rest : List NetInterface} {w x u : W}
        (failed : ReleaseFailure)
        → IsPodName intf.name
        → release_vf_custom h n intf args.container_id args.netns pfs w ≡ (err failed, x)
        → Releases (record n { shared_vf = failed.shared }) rest x u
        → Releases n (intf ∷ rest) w u

  after_released :
      (n : NetConf) (intf : NetInterface) (rest : List NetInterface) (t : Tried ReleaseFailure Bool)
      (w x u : W)
      → IsPodName intf.name
      → attempt {F = Error} (release_vf_custom h n intf args.container_id args.netns pfs) w
        ≡ (ok t, x)
      → Releases (after_release h n t) rest x u
      → Releases n (intf ∷ rest) w u
  unfolding after_release
  after_released n intf rest (success shared) w x u named ran more =
      releases shared named
        (attempt-success_eq {F = Error}
          (release_vf_custom h n intf args.container_id args.netns pfs) w ran)
        more
  after_released n intf rest (failure f) w x u named ran more =
      fails f named
        (attempt-failure_eq {F = Error}
          (release_vf_custom h n intf args.container_id args.netns pfs) w ran)
        more

  release_interfaces-Releases :
      (n : NetConf) (interfaces : List NetInterface) (w u : W)
      → release_interfaces h n args pfs interfaces w ≡ (ok tt, u)
      → Releases n interfaces w u
  unfolding release_interfaces release_interface
  release_interfaces-Releases n [] w u e = subst (Releases n [] w) (ap (λ r. r.1) e) all_done
  release_interfaces-Releases n (intf ∷ rest) w u e =
      by_parts_eq (release_interface h n args pfs intf) _ w e λ n' x ran more.
        let later = release_interfaces-Releases n' rest x u more in
        elim (Bool-cases (is_pod_interface intf.name)) [
          | inl named ↦
              by_parts_eq (attempt (release_vf_custom h n intf args.container_id args.netns pfs)) _
                w (sym (if_true (is_pod_interface intf.name) _ _ w named) ∙ ran)
                λ t y tried after.
                  let is : after_release h n t ≡ n' = cc (ap (λ r. r.0) after) in
                  after_released n intf rest t w y u (is_pod_interface-IsPodName intf.name named)
                    tried
                    (subst (λ m. Releases m rest y u) (sym is)
                      (subst (λ z. Releases n' rest z u) (sym (ap (λ r. r.1) after)) later))
          | inr other ↦
              let done = sym (if_false (is_pod_interface intf.name) _ _ w other) ∙ ran in
              let is : n ≡ n' = cc (ap (λ r. r.0) done) in
              passes (λ p. false≢true (sym other ∙ IsPodName-is_pod_interface intf.name p))
                (subst (λ m. Releases m rest w u) (sym is)
                  (subst (λ z. Releases n' rest z u) (sym (ap (λ r. r.1) done)) later))
        ]

  -- The loop goes on after an interface with the configuration that this has left.
  goes_on :
      (n m : NetConf) (intf : NetInterface) (rest : List NetInterface) (w x u : W)
      → release_interface h n args pfs intf w ≡ (ok m, x)
      → release_interfaces h m args pfs rest x ≡ (ok tt, u)
      → release_interfaces h n args pfs (intf ∷ rest) w ≡ (ok tt, u)
  unfolding release_interfaces
  goes_on n m intf rest w x u one more =
      bind_eq (release_interface h n args pfs intf) _ w one ∙ more

  released_as :
      (n : NetConf) (intf : NetInterface) (t : Tried ReleaseFailure Bool) (w x : W)
      → IsPodName intf.name
      → attempt {F = Error} (release_vf_custom h n intf args.container_id args.netns pfs) w
        ≡ (ok t, x)
      → release_interface h n args pfs intf w ≡ (ok (after_release h n t), x)
  unfolding release_interface
  released_as n intf t w x named ran =
      if_true (is_pod_interface intf.name) _ _ w (IsPodName-is_pod_interface intf.name named)
      ∙ bind_eq (attempt (release_vf_custom h n intf args.container_id args.netns pfs)) _ w ran

  Releases-release_interfaces :
      {n : NetConf} {interfaces : List NetInterface} {w u : W}
      → Releases n interfaces w u
      → release_interfaces h n args pfs interfaces w ≡ (ok tt, u)
  unfolding release_interface release_interfaces after_release
  Releases-release_interfaces all_done = refl
  Releases-release_interfaces {n} {w = w} {u} (passes {intf = intf} {rest} other more) =
      goes_on n n intf rest w w u
        (elim (Bool-cases (is_pod_interface intf.name)) [
          | inl named ↦ absurd (other (is_pod_interface-IsPodName intf.name named))
          | inr f ↦ if_false (is_pod_interface intf.name) _ _ w f
        ])
        (Releases-release_interfaces more)
  Releases-release_interfaces {n} {w = w} {u}
        (releases {intf = intf} {rest} {x = x} shared named ran more) =
      goes_on n _ intf rest w x u
        (released_as n intf (success shared) w x named (
          attempt_eq {F = Error} (release_vf_custom h n intf args.container_id args.netns pfs) w
            ran))
        (Releases-release_interfaces more)
  Releases-release_interfaces {n} {w = w} {u}
        (fails {intf = intf} {rest} {x = x} failed named ran more) =
      goes_on n _ intf rest w x u
        (released_as n intf (failure failed) w x named (
          attempt_eq_err {F = Error} (release_vf_custom h n intf args.container_id args.netns pfs) w
            ran))
        (Releases-release_interfaces more)

  -- The loop of DEL over the interfaces of the pod's namespace ends without an error exactly if one
  -- after the other is passed over, if it is not called `eth` and a number, or else released by
  -- `releaseVFCustom`, which returns or fails; after either the loop goes on, with the `Sharedvf` that
  -- the release has left in the configuration, and with no other change to it.
  pub release_interfaces-Releases_iff :
      (n : NetConf) (interfaces : List NetInterface) (w u : W)
      → (release_interfaces h n args pfs interfaces w ≡ (ok tt, u)) ↔ Releases n interfaces w u
  release_interfaces-Releases_iff n interfaces w u =
      (release_interfaces-Releases n interfaces w u, Releases-release_interfaces)
