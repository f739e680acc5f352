-- ===== src/Tests/Obeying.antt =====
-- The laws of the host on which the VF's device moves.
use rit_k8s_rdma_sriov_cni.Base.{ℕ, zero, suc, String, ◌≡◌, ◌≢◌, refl, sym, ap, ◌∙◌, subst}
use rit_k8s_rdma_sriov_cni.Go.{Error, ok, Run}
use rit_k8s_rdma_sriov_cni.Host.{Ns}
use rit_k8s_rdma_sriov_cni.Network.{Puts, Obeys}
use rit_k8s_rdma_sriov_cni.Tests.Machine.{World, find}
use rit_k8s_rdma_sriov_cni.Tests.Mover.{
  called, inside, mover, put, shown, space, stored, vf_at, view, where_is,
}
use rit_k8s_rdma_sriov_cni.Tests.Looking.{
  shown-stored, view_unique, index_of-vf, looked_up-finds, named_how, moved_how, looked_up-back,
  or_missing-back, back-IsQuiet, in_goroutine-ok,
}

put-others :
    (name : String) (ns : Ns) (w : World) (j : ℕ)
    → j ≢ 0
    → (where_is (put name ns w) j ≡ where_is w j) × (called (put name ns w) j ≡ called w j)
unfolding where_is called
put-others name ns w zero ne = absurd (ne refl)
put-others name ns w (suc zero) ne = (refl, refl)
put-others name ns w (suc (suc k)) ne = (refl, refl)

put-Puts :
    (name : String) (ns : Ns) (w : World)
    → shown name ≡ name
    → Puts view 0 (space ns) name w (put name ns w)
unfolding where_is called stored
put-Puts name ns w other = record {
  placed = (refl, other);
  others = put-others name ns w;
  stays = refl;
}

inside-comes_back :
    (ns : Ns) (m : Run World Error Unit) (w u : World)
    → inside ns m w ≡ (ok tt, u)
    → (a : World) × (b : World) × (view.devices a ≡ view.devices w)
      × (view.current a ≡ space ns)
      × (m a ≡ (ok tt, b))
      × (view.devices u ≡ view.devices b)
      × (view.current u ≡ view.current w)
unfolding inside where_is called
inside-comes_back ns m w u e =
    let a : World = record w { current_ns = ns } in
    (
      a,
      (m a).1,
      refl,
      refl,
      (λ i. (in_goroutine-ok (m a).0 (ap (λ r. r.0) e) i, (m a).1)),
      sym (ap (λ r. view.devices r.1) e),
      sym (ap (λ r. view.current r.1) e),
    )

pub mover-Obeys : Obeys mover view
unfolding where_is called
mover-Obeys = record {
  unique = view_unique;
  finds = λ name l w u e.
      let (id, denotes, here, name_of) = looked_up-finds name l w u e in
      (id, denotes, (here, name_of));
  renames = λ l new id w u denotes e.
      let (vf, other, changed) = named_how l new w u e in
      subst (λ i. Puts view i (where_is w i) new w u) (sym (index_of-vf id (denotes ∙ vf)))
        (subst (Puts view 0 (space (vf_at w).1) new w) (sym changed)
          (put-Puts new (vf_at w).1 w other));
  moves = λ l ns id w u denotes e.
      let (vf, changed) = moved_how l ns w u e in
      subst (λ i. Puts view i (space ns) (called w i) w u) (sym (index_of-vf id (denotes ∙ vf)))
        (subst (Puts view 0 (space ns) (vf_at w).0 w) (sym changed)
          (put-Puts (vf_at w).0 ns w (shown-stored w.devices)));
  does_in_ns = inside-comes_back;
  gets_current =
      λ ns w u e. let same : w.current_ns ≡ ns = cc (ap (λ r. r.0) e) in sym (ap space same);
  sets_ns = λ ns w u e. sym (ap (λ r. view.current r.1) e);
  setting_ns = λ ns w. refl;
  looking_denotes = λ l id name w d. d;
  renaming_denotes = λ l l' id new w d. d;
  up_denotes = λ l l' id w d. d;
  down_denotes = λ l l' id w d. d;
  looking = λ name. back-IsQuiet (looked_up-back name);
  setting_up = λ l. back-IsQuiet λ w. refl;
  setting_down = λ l. back-IsQuiet λ w. refl;
  setting_vlan = λ l vf vlan. back-IsQuiet λ w. refl;
  getting_current = back-IsQuiet λ w. refl;
  getting_ns = λ path. back-IsQuiet λ w. refl;
  closing_ns = λ ns. back-IsQuiet λ w. refl;
  seeing = λ path. back-IsQuiet λ w. refl;
  testing = λ path. back-IsQuiet λ w. refl;
  listing = λ path. back-IsQuiet λ w. refl;
  reading = λ path. back-IsQuiet λ w. or_missing-back (find path w.files) w;
  linking = λ path. back-IsQuiet λ w. refl;
  following = λ path. back-IsQuiet λ w. refl;
  writing = λ path bytes. record { same = λ w. (refl, refl) };
  making_dir = λ path. back-IsQuiet λ w. refl;
  removing = λ path. record { same = λ w. (refl, refl) };
  starting = λ args. back-IsQuiet λ w. refl;
}
