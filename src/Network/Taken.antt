-- ===== src/Network/Taken.antt =====
-- Devices that an ADD has taken to the pod.
use rit_k8s_rdma_sriov_cni.Base.{
  ℕ, suc, ◌≡◌, sym, ap, ◌∙◌, String, ◌<>◌, List, [], ◌∷◌, get_elem?, some,
}
use mathlib.Core.List.{Mem, Nodup}
use rit_k8s_rdma_sriov_cni.Go.{ok}
use rit_k8s_rdma_sriov_cni.Go.Strconv.{itoa}
use rit_k8s_rdma_sriov_cni.Host.{Host, Ns, PfInfo}
use rit_k8s_rdma_sriov_cni.Setup.Rounds.{devices_of}
use rit_k8s_rdma_sriov_cni.Network.{View, Placed, Same}

module _ {W : Type 0} (h : Host W) where
  -- The directory of one of the PF's VFs lists the device, and no other.
  abbrev pub Lists : String → String → Type 0
  Lists pf_name info =
      (vf : ℕ) × (x : W) × (y : W) × (h.read_dir (devices_of pf_name vf) x ≡ (ok (info ∷ []), y))

module _ {W : Type 0} (h : Host W) (v : View W) (netns : Ns) (pfs : List PfInfo) where
  -- Device `id` of a VF of the PF at `placement` is in the thread's namespace before, at `w`, and in
  -- the pod's under `eth` and `i` after, at `u`.
  pub record IsTaken (placement i id : ℕ) (w u : W) : Type 0 where
    pub pf : PfInfo
    pub info : String
    pub at_placement : get_elem? pfs placement ≡ some pf
    pub listed : Lists h pf.name info
    pub before : Placed v id (v.current w) info w
    pub after : Placed v id (v.space netns) ("eth" <> itoa i) u

  -- One device for each placement, numbered from `i` on
  pub data AllTaken : List ℕ → ℕ → List ℕ → W → W → Type 0 where
    none_taken : {i : ℕ} {w u : W} → AllTaken [] i [] w u
    one_taken :
        {placement i id : ℕ} {rest ids : List ℕ} {w u : W}
        → IsTaken placement i id w u
        → AllTaken rest (suc i) ids w u
        → AllTaken (placement ∷ rest) i (id ∷ ids) w u

  -- What the loop does to the devices: each placement takes one of its own to the pod, and no other
  -- device changes.
  pub record Populates (placements : List ℕ) (i : ℕ) (w u : W) : Type 0 where
    pub ids : List ℕ
    pub all_taken : AllTaken placements i ids w u
    pub distinct : Nodup ids
    pub others :
        (j : ℕ)
        → ¬ Mem j ids
        → ((v.devices u).ns_of j ≡ (v.devices w).ns_of j)
          × ((v.devices u).name_of j ≡ (v.devices w).name_of j)
    pub stays : v.current u ≡ v.current w

module _ {W : Type 0} (h : Host W) (v : View W) (netns : Ns) (pfs : List PfInfo) where
  -- Devices that were taken, seen from before and after calls that change nothing
  framed_devices :
      {placements ids : List ℕ} {i : ℕ} (a w u z : W)
      → Same v a w
      → Same v u z
      → AllTaken h v netns pfs placements i ids w u
      → AllTaken h v netns pfs placements i ids a z
  framed_devices a w u z s t none_taken = none_taken
  framed_devices a w u z s t (one_taken {id = id} d more) =
      one_taken
        (record {
          pf = d.pf;
          info = d.info;
          at_placement = d.at_placement;
          listed = d.listed;
          before = (
            sym (ap (λ e. e.ns_of id) s.0) ∙ d.before.0 ∙ s.1,
            sym (ap (λ e. e.name_of id) s.0) ∙ d.before.1,
          );
          after = (ap (λ e. e.ns_of id) t.0 ∙ d.after.0, ap (λ e. e.name_of id) t.0 ∙ d.after.1);
        })
        (framed_devices a w u z s t more)

  pub framed :
      {placements : List ℕ} {i : ℕ} (a w u z : W)
      → Same v a w
      → Same v u z
      → Populates h v netns pfs placements i w u
      → Populates h v netns pfs placements i a z
  framed a w u z s t p = record {
    ids = p.ids;
    all_taken = framed_devices a w u z s t p.all_taken;
    distinct = p.distinct;
    others = λ j out.
        let (ns, name) = p.others j out in
        (
          ap (λ e. e.ns_of j) t.0 ∙ ns ∙ ap (λ e. e.ns_of j) s.0,
          ap (λ e. e.name_of j) t.0 ∙ name ∙ ap (λ e. e.name_of j) s.0,
        );
    stays = t.1 ∙ p.stays ∙ s.1;
  }
