-- ===== src/Setup/Rounds.antt =====
-- A round of the loop of `setupVF` over the VFs.
use rit_k8s_rdma_sriov_cni.Base.{
  ℕ, ◌+◌, ◌≡◌, ◌⊎◌, inl, inr, refl, sym, ap, ◌∙◌, subst, String, ◌<>◌, Bool, false, Bool-cases,
  none, List, [], ◌∷◌, ◌==◌,
}
use rit_k8s_rdma_sriov_cni.Go.{Error, ok, err, success, failure, attempt, Tried-cases, ◌orelse◌}
use rit_k8s_rdma_sriov_cni.Go.Laws.{
  by_parts_eq, orelse-ok_eq, attempt-success_eq, attempt-failure_eq, if_true, if_false,
}
use rit_k8s_rdma_sriov_cni.Go.Strconv.{itoa}
use rit_k8s_rdma_sriov_cni.Host.{Host, InterfaceRequest}
use rit_k8s_rdma_sriov_cni.Device.{virtfn_dir, get_pci_address}
use rit_k8s_rdma_sriov_cni.Setup.Chosen.{taken, take_vf-eq}
use rit_k8s_rdma_sriov_cni.Setup.{
  Choice, Round, again, chosen, VfFailure, failed, vf_round, after_lstat, look_at, take_vf,
}

-- The directory of a VF's devices
abbrev pub devices_of : String → ℕ → String
devices_of if_name vf = virtfn_dir if_name vf <> "/net"

module _ {W : Type 0} (h : Host W) (if_name : String) where
  -- From one VF and host state to another, each VF between has no directory of devices that can be
  -- opened, or an empty one.
  pub data Skips : ℕ → W → ℕ → W → Type 0 where
    none_skipped : {vf : ℕ} {w : W} → Skips vf w vf w
    unopened :
        {vf k : ℕ} {w x u : W} (e : Error)
        → h.lstat (devices_of if_name vf) w ≡ (err e, x)
        → Skips (vf + 1) x k u
        → Skips vf w k u
    empty :
        {vf k : ℕ} {w x y u : W} (link : Bool)
        → h.lstat (devices_of if_name vf) w ≡ (ok link, x)
        → h.read_dir (devices_of if_name vf) x ≡ (ok [], y)
        → Skips (vf + 1) y k u
        → Skips vf w k u

  -- The first VF from `vf` on whose directory of devices is not empty, and the names in it
  pub record IsFirstUsed (vf : ℕ) (w : W) (chosen_vf : ℕ) (info : String) (infos : List String)
      : Type 0 where
    pub link : Bool
    pub found : W
    pub opened : W
    pub listed : W
    pub skips : Skips vf w chosen_vf found
    pub opens : h.lstat (devices_of if_name chosen_vf) found ≡ (ok link, opened)
    pub lists : h.read_dir (devices_of if_name chosen_vf) opened ≡ (ok (info ∷ infos), listed)

  -- The PCI address of the choice is read after its directory of devices.
  abbrev pub Chooses : ℕ → W → Choice → Type 0
  Chooses vf w c =
      (info : String) × (infos : List String) × (c.infos ≡ info ∷ infos)
      × ((f : IsFirstUsed vf w c.vf_idx info infos) × ((get_pci_address h.files if_name c.vf_idx
              f.listed).0
            ≡ ok c.pci_addr))

  module _ (request : InterfaceRequest) where
    take_vf-chosen :
        (vf : ℕ) (c : Choice) (infos : List String) (r : Round) (w u : W)
        → take_vf h if_name request vf c infos w ≡ (ok r, u)
        → (c' : Choice) × (r ≡ chosen c')
          × (c'.infos ≡ infos)
          × (c'.vf_idx ≡ vf)
          × ((get_pci_address h.files if_name vf w).0 ≡ ok c'.pci_addr)
    unfolding take_vf
    take_vf-chosen vf c infos r w u e =
        let (pci_addr, _, is, read) = take_vf-eq h if_name request vf c infos w (ap (λ r. r.0) e) in
        (taken h if_name request vf c infos pci_addr, is, refl, refl, read)

    -- A round that ends by `continue` is not the last one.
    look_at-rounds :
        (total vf : ℕ) (c : Choice) (infos : List String) (r : Round) (w u : W)
        → look_at h if_name request total vf c infos w ≡ (ok r, u)
        → ((infos ≡ []) × (w ≡ u) × ((vf + 1 == total) ≡ false) × ((c' : Choice) × (r ≡ again c')))
          ⊎ ((info : String) × (rest : List String) × (c' : Choice) × (infos ≡ info ∷ rest)
              × (r ≡ chosen c')
              × (c'.infos ≡ infos)
              × (c'.vf_idx ≡ vf)
              × ((get_pci_address h.files if_name vf w).0 ≡ ok c'.pci_addr))
    unfolding look_at
    look_at-rounds total vf c [] r w u e = elim (Bool-cases (vf + 1 == total)) [
      | inl last ↦ cc (ap (λ r. r.0) (sym (if_true (vf + 1 == total) _ _ w last) ∙ e))
      | inr more ↦
          let done = sym (if_false (vf + 1 == total) _ _ w more) ∙ e in
          let goes_on : again (record c { infos = [] }) ≡ r = cc (ap (λ r. r.0) done) in
          inl (refl, ap (λ r. r.1) done, more, (record c { infos = [] }, sym goes_on))
    ]
    look_at-rounds total vf c (info ∷ rest) r w u e =
        let (c', is, names, index, read) = take_vf-chosen vf c (info ∷ rest) r w u e in
        inr (info, rest, c', refl, is, names, index, read)

    -- The round passes the VF over, which is not the last, or chooses it.
    abbrev pub Ends : ℕ → ℕ → Round → W → W → Type 0
    Ends total vf r w u =
        (((vf + 1 == total) ≡ false)
          × ((c : Choice) × (r ≡ again c))
          × ((k : ℕ) (x : W) → Skips (vf + 1) u k x → Skips vf w k x))
        ⊎ ((c : Choice) × (r ≡ chosen c) × Chooses vf w c)

    unopened-Ends :
        (total vf : ℕ) (c : Choice) (e : Error) (r : Round) (w x u : W)
        → h.lstat (devices_of if_name vf) w ≡ (err e, x)
        → after_lstat h if_name request total vf c (failure e) x ≡ (ok r, u)
        → Ends total vf r w u
    unfolding after_lstat
    unopened-Ends total vf c e r w x u ran rest = elim (Bool-cases (vf + 1 == total)) [
      | inl last ↦ cc (ap (λ r. r.0) (sym (if_true (vf + 1 == total) _ _ x last) ∙ rest))
      | inr more ↦
          let done = sym (if_false (vf + 1 == total) _ _ x more) ∙ rest in
          let goes_on : again c ≡ r = cc (ap (λ r. r.0) done) in
          inl (
            more,
            (c, sym goes_on),
            λ k y skips.
                unopened e ran (subst (λ z. Skips (vf + 1) z k y) (sym (ap (λ r. r.1) done)) skips),
          )
    ]

    opened-Ends :
        (total vf : ℕ) (c : Choice) (link : Bool) (r : Round) (w x u : W)
        → h.lstat (devices_of if_name vf) w ≡ (ok link, x)
        → after_lstat h if_name request total vf c (success link) x ≡ (ok r, u)
        → Ends total vf r w u
    unfolding after_lstat
    opened-Ends total vf c link r w x u ran rest =
        by_parts_eq
          (h.read_dir (devices_of if_name vf)
            orelse failed none c.conf "failed to read the virtfn%d dir of the device %q: %v"
                (itoa vf ∷ if_name ∷ []))
          (look_at h if_name request total vf c) x rest
          λ names y listed looked.
            let lists = orelse-ok_eq (h.read_dir (devices_of if_name vf)) _ x listed in
            elim (look_at-rounds total vf c names r y u looked) [
              | inl (none_there, same, more, goes_on) ↦ inl (
                more,
                goes_on,
                λ k z skips.
                    empty link ran (lists ∙ ap (λ l. (ok l, y)) none_there)
                      (subst (λ v. Skips (vf + 1) v k z) (sym same) skips),
              )
              | inr (info, others, c', some_there, is, infos, index, read) ↦ inr (
                c',
                is,
                (
                  info,
                  others,
                  infos ∙ some_there,
                  subst
                      (λ k.
                        (f : IsFirstUsed vf w k info others) × ((get_pci_address h.files if_name k
                            f.listed).0
                          ≡ ok c'.pci_addr))
                      (sym index)
                      (
                        record {
                          link = link;
                          found = w;
                          opened = x;
                          listed = y;
                          skips = none_skipped;
                          opens = ran;
                          lists = lists ∙ ap (λ l. (ok l, y)) some_there;
                        },
                        read,
                      ),
                ),
              )
            ]

    pub vf_round-Ends :
        (total vf : ℕ) (c : Choice) (r : Round) (w u : W)
        → vf_round h if_name request total vf c w ≡ (ok r, u)
        → Ends total vf r w u
    unfolding vf_round
    vf_round-Ends total vf c r w u e =
        by_parts_eq (attempt (h.lstat (devices_of if_name vf)))
          (after_lstat h if_name request total vf c) w e
          λ tried x ran rest. elim (Tried-cases tried) [
            | inl (e', is) ↦
                unopened-Ends total vf c e' r w x u
                  (attempt-failure_eq {F = VfFailure} (h.lstat (devices_of if_name vf)) w
                    (ran ∙ ap (λ t. (ok t, x)) is))
                  (sym (ap (λ t. after_lstat h if_name request total vf c t x) is) ∙ rest)
            | inr (link, is) ↦
                opened-Ends total vf c link r w x u
                  (attempt-success_eq {F = VfFailure} (h.lstat (devices_of if_name vf)) w
                    (ran ∙ ap (λ t. (ok t, x)) is))
                  (sym (ap (λ t. after_lstat h if_name request total vf c t x) is) ∙ rest)
          ]
