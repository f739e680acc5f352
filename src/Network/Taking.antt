-- ===== src/Network/Taking.antt =====
-- The loop of `cmdAdd` over the placements, in the view of the devices.
use rit_k8s_rdma_sriov_cni.Base.{
  ℕ, zero, suc, ◌<◌, ◌≡◌, ◌≢◌, refl, sym, ap, ◌∙◌, subst, String, ◌<>◌, Bool, true, false, ◌||◌,
  List, [], ◌∷◌, get_elem?, some, arith,
}
use mathlib.Core.List.{
  Mem, Pairwise, Nodup-cons, mem-cons_self, mem-cons_of_mem, eq-or-mem_of_mem-cons, not-mem-nil,
}
use mathlib.Core.Logic.Or
use mathlib.Core.HLevel.{⊥_prop}
use rit_k8s_rdma_sriov_cni.Go.{ok}
use rit_k8s_rdma_sriov_cni.Go.Strconv.{itoa}
use rit_k8s_rdma_sriov_cni.Cni.{IpamResult}
use rit_k8s_rdma_sriov_cni.Conf.{NetConf}
use rit_k8s_rdma_sriov_cni.Host.{Host, Ns, InterfaceRequest, PfInfo}
use rit_k8s_rdma_sriov_cni.Setup.{VfSetup, rounds_of, choose_vf, setup_vf}
use rit_k8s_rdma_sriov_cni.Setup.Rounds.{devices_of}
use rit_k8s_rdma_sriov_cni.Setup.First.{choose_vf-IsFirstUsed}
use rit_k8s_rdma_sriov_cni.Setup.Result.{setup_vf-IsSetUp}
use rit_k8s_rdma_sriov_cni.Add.Interfaces.{CmdArgs, Progress, add_interfaces}
use rit_k8s_rdma_sriov_cni.Add.Success.{IsAdded, Adds, finished, next}
use rit_k8s_rdma_sriov_cni.Add.Success.Enough.{add_interfaces-Adds_iff}
use rit_k8s_rdma_sriov_cni.Network.{
  View, Moved, Puts, Same-trans, Puts-Same, quiet_at, IsQuiet, Obeys,
}
use rit_k8s_rdma_sriov_cni.Network.Taken.{Lists, AllTaken, none_taken, one_taken, Populates}
use rit_k8s_rdma_sriov_cni.Network.Rounds.{do_in_ns-Same}
use rit_k8s_rdma_sriov_cni.Network.Placing.{setup_vf-chosen}

-- What is assumed of the calls of the loop besides those of `setupVF`: the directory of a VF lists no
-- device or one, and that is not called eth0; the IPAM plugin and `ipam.ConfigureIface` change no
-- device's place or name.
pub record Settles {W : Type 0} (h : Host W) (v : View W) : Type 0 where
  pub one_device :
      (pf_name info : String) (vf : ℕ) (infos : List String) (w u : W)
      → h.read_dir (devices_of pf_name vf) w ≡ (ok (info ∷ infos), u)
      → (infos ≡ []) × (info ≢ "eth0")
  pub answering : (ipam_type stdin : String) → IsQuiet v (h.exec_add ipam_type stdin)
  pub configuring : (if_name : String) (r : IpamResult) → IsQuiet v (h.configure_iface if_name r)

module _ {W : Type 0} (h : Host W) (v : View W) (law : Obeys h v) (settles : Settles h v) where
  pub or_left : (a b : Bool) → (a || b) ≡ false → a ≡ false
  or_left false b e = refl
  or_left true b e = e

  counted_suc : (n m : ℕ) → m < n → (k : ℕ) × (n ≡ suc k)
  counted_suc zero m lt = absurd (omega (arith, lt))
  counted_suc (suc k) m lt = (k, refl)

  -- A `setupVF` that succeeds moves the device that it found at the PF.
  setup_vf-Lists :
      (conf : NetConf) (pf_name pod_if_name cid : String) (netns : Ns) (request : InterfaceRequest)
      (w u : W) (s : VfSetup)
      → conf.dpdk_mode ≡ false
      → setup_vf h conf pf_name pod_if_name cid netns request w ≡ (ok s, u)
      → (info : String) × Lists h pf_name info × Moved v info (v.space netns) pod_if_name w u
  setup_vf-Lists conf pf_name pod_if_name cid netns request w u s netdev e =
      let (c, moved, (total, x, y, counted, chose)) =
        setup_vf-chosen h v law conf pf_name pod_if_name cid netns request w u s netdev e in
      let (total', _, counted', is, _) =
        setup_vf-IsSetUp h conf pf_name pod_if_name cid netns request w (ap (λ r. r.0) e) in
      let totals : total' ≡ total = cc (sym (ap (λ r. r.0) counted') ∙ ap (λ r. r.0) counted) in
      let (k, rounds) =
        counted_suc (rounds_of total) s.vf_idx
          (subst (λ t. s.vf_idx < rounds_of t) totals is.in_range) in
      let (info, infos, names, (first, _)) =
        choose_vf-IsFirstUsed h pf_name request conf k c x y
          (subst (λ n. choose_vf h conf pf_name request n x ≡ (ok c, y)) rounds chose) in
      let (alone, other) =
        settles.one_device pf_name info c.vf_idx infos first.opened first.listed first.lists in
      (
        info,
        (
          c.vf_idx,
          first.opened,
          first.listed,
          first.lists ∙ ap (λ l. (ok (info ∷ l), first.listed)) alone,
        ),
        moved info (names ∙ ap (λ l. info ∷ l) alone) other,
      )

  module _ (args : CmdArgs) (netns : Ns) (requests : List InterfaceRequest)
      (pfs : List PfInfo) where
    -- A device that is elsewhere is none of those taken.
    elsewhere :
        {placements ids : List ℕ} {i : ℕ} {w u : W} (j : ℕ)
        → AllTaken h v netns pfs placements i ids w u
        → (v.devices w).ns_of j ≢ v.current w
        → ¬ Mem j ids
    elsewhere j none_taken away m = not-mem-nil m
    elsewhere {w = w} j (one_taken t more) away m =
        Or.elim ⊥_prop (eq-or-mem_of_mem-cons m)
          (λ e. away (subst (λ k. (v.devices w).ns_of k ≡ v.current w) (sym e) t.before.0))
          (elsewhere j more away)

    -- The devices taken later were where they are before one other was put in the pod.
    earlier :
        {placements ids : List ℕ} {i id ns : ℕ} {name : String} {w w' u : W}
        → Puts v id ns name w w'
        → ¬ Mem id ids
        → AllTaken h v netns pfs placements i ids w' u
        → AllTaken h v netns pfs placements i ids w u
    earlier put fresh none_taken = none_taken
    earlier {ids = j ∷ ids} put fresh (one_taken t more) =
        let (there, called) =
          put.others j λ e. fresh (subst (λ k. Mem k (j ∷ ids)) e mem-cons_self) in
        one_taken
          (record {
            pf = t.pf;
            info = t.info;
            at_placement = t.at_placement;
            listed = t.listed;
            before = (sym there ∙ t.before.0 ∙ put.stays, sym called ∙ t.before.1);
            after = t.after;
          })
          (earlier put (λ m. fresh (mem-cons_of_mem j m)) more)

    pub IsAdded-Moved :
        (placement i : ℕ) (p p' : Progress) (w w' : W)
        → IsAdded h args netns requests pfs placement i p w p' w'
        → (pf : PfInfo) × (info : String) × (get_elem? pfs placement ≡ some pf)
          × Lists h pf.name info
          × Moved v info (v.space netns) ("eth" <> itoa i) w w'
    IsAdded-Moved placement i p p' w w' a =
        let (_, _, _, is, _) =
          setup_vf-IsSetUp h p.conf a.pf.name ("eth" <> itoa i) args.container_id netns a.request w
            (ap (λ r. r.0) a.sets_up) in
        let (info, listed, (id, was, put)) =
          setup_vf-Lists p.conf a.pf.name ("eth" <> itoa i) args.container_id netns a.request w
            a.taken a.s
            (sym is.settings.dpdk_mode ∙ or_left a.s.conf.dpdk_mode a.s.conf.l2_mode a.plain)
            a.sets_up in
        let later =
          Same-trans v (quiet_at v (settles.answering a.s.conf.ipam_type args.stdin_data) a.answers)
            (do_in_ns-Same h v law netns (h.configure_iface ("eth" <> itoa i) a.result) a.answered
              w' (settles.configuring ("eth" <> itoa i) a.result) a.configures) in
        (a.pf, info, a.at_placement, listed, (id, was, Puts-Same v put later))

    populated :
        (placement i : ℕ) (rest : List ℕ) (p p' : Progress) (w w' u : W)
        → v.space netns ≢ v.current w
        → IsAdded h args netns requests pfs placement i p w p' w'
        → Populates h v netns pfs rest (suc i) w' u
        → Populates h v netns pfs (placement ∷ rest) i w u
    populated placement i rest p p' w w' u apart a more =
        let (pf, info, at, listed, (id, was, put)) = IsAdded-Moved placement i p p' w w' a in
        let fresh = elsewhere id more.all_taken λ e. apart (sym put.placed.0 ∙ e ∙ put.stays) in
        let (there, called) = more.others id fresh in
        record {
          ids = id ∷ more.ids;
          all_taken =
              one_taken
                (record {
                  pf = pf;
                  info = info;
                  at_placement = at;
                  listed = listed;
                  before = was;
                  after = (there ∙ put.placed.0, called ∙ put.placed.1);
                })
                (earlier put fresh more.all_taken);
          distinct = Nodup-cons.1 (fresh, more.distinct);
          others = λ j out.
              let (n, k) = more.others j (λ m. out (mem-cons_of_mem id m)) in
              let (n', k') =
                put.others j (λ e. out (subst (λ l. Mem j (l ∷ more.ids)) e mem-cons_self)) in
              (n ∙ n', k ∙ k');
          stays = more.stays ∙ put.stays;
        }

    Adds-Populates :
        (placements : List ℕ) (i : ℕ) (p q : Progress) (w u : W)
        → v.space netns ≢ v.current w
        → Adds h args netns requests pfs placements i p w q u
        → Populates h v netns pfs placements i w u
    Adds-Populates [] i p q w u apart finished = record {
      ids = [];
      all_taken = none_taken;
      distinct = Pairwise.nil;
      others = λ j fresh. (refl, refl);
      stays = refl;
    }
    Adds-Populates (placement ∷ rest) i p q w u apart (next {p' = p'} {w' = w'} a more) =
        let (_, _, _, _, (_, _, put)) = IsAdded-Moved placement i p p' w w' a in
        populated placement i rest p p' w w' u apart a
          (Adds-Populates rest (suc i) p' q w' u (λ e. apart (e ∙ put.stays)) more)

    -- A loop of an ADD over the placements that succeeds takes one device for each placement to the
    -- pod: a device that the directory of a VF of the placement's PF lists, out of the thread's
    -- namespace, under the name `eth` and the interface's number, whatever the configuration's
    -- `if0name` is. The devices are all different, no
    -- other device changes its place or name, and the thread stays in its namespace. It is assumed that
    -- the host obeys the view, that the thread is not in the pod's namespace, that the directory of a
    -- VF lists no device or one, not called eth0, and that the IPAM plugin and the configuration of an
    -- interface change no place or name.
    pub add_interfaces-Populates :
        (placements : List ℕ) (i : ℕ) (p q : Progress) (w u : W)
        → v.space netns ≢ v.current w
        → add_interfaces h args netns requests pfs placements i p w ≡ (ok q, u)
        → Populates h v netns pfs placements i w u
    add_interfaces-Populates placements i p q w u apart e =
        Adds-Populates placements i p q w u apart
          ((add_interfaces-Adds_iff h args netns requests pfs placements i p q w u).0 e)
