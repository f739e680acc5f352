-- ===== src/Device/Vlan.antt =====
-- Which VF `resetVfVlan` resets.
use rit_k8s_rdma_sriov_cni.Base.{
  ℕ, zero, suc, ◌+◌, ◌≡◌, refl, ap, sym, ◌∙◌, subst, String, ◌<>◌, not, ◌⊎◌, true, false, inl, inr,
  Option, none, some, [], ◌∷◌, Bool-cases,
}
use rit_k8s_rdma_sriov_cni.Go.{
  Error, errorf, wrapf, ok, err, Tried, success, failure, attempt, pure, ◌orelse◌,
}
use rit_k8s_rdma_sriov_cni.Go.Laws.{
  by_parts_eq, if_true, if_false, orelse-ok_eq, attempt-success_eq, attempt-failure_eq,
}
use rit_k8s_rdma_sriov_cni.Go.Strconv.{ℤ, pos, negsuc, itoa}
use rit_k8s_rdma_sriov_cni.Host.{Netlink, Files, Link}
use rit_k8s_rdma_sriov_cni.Device.{
  virtfn_dir, get_sriov_numfs, is_there, find_vf, reset_found, reset_among, reset_vf_vlan,
}

module _ {W : Type 0} (f : Files W) (pf_name vf_name : String) where
  abbrev pub device_at : ℕ → String
  device_at vf = virtfn_dir pf_name vf <> "/net/" <> vf_name

  -- `Stat` of the device's directory under VF `vf` tells that it does not exist.
  pub record IsAbsent (vf : ℕ) (w u : W) : Type 0 where
    pub why : Error
    pub failed : f.stat (device_at vf) w ≡ (err why, u)
    pub not_exist : f.is_not_exist why ≡ true

  -- It succeeds, or fails otherwise.
  abbrev pub IsSeen : ℕ → W → W → Type 0
  IsSeen vf w u =
      (f.stat (device_at vf) w ≡ (ok tt, u))
      ⊎ ((why : Error) × (f.stat (device_at vf) w ≡ (err why, u)) × (f.is_not_exist why ≡ false))

  -- From VF `vf` on, of so many, `Stat` is called for one VF after the other. The device is under none
  -- until VF `k`, and there it is seen.
  pub data FindsFirst : ℕ → ℕ → W → ℕ → W → Type 0 where
    seen : {rounds vf : ℕ} {w u : W} → IsSeen vf w u → FindsFirst (suc rounds) vf w vf u
    absent :
        {rounds vf k : ℕ} {w x u : W}
        → IsAbsent vf w x
        → FindsFirst rounds (vf + 1) x k u
        → FindsFirst (suc rounds) vf w k u

  stat-Looks :
      (vf : ℕ) (t : Tried Error Unit) (w u : W)
      → attempt {F = Error} (f.stat (device_at vf)) w ≡ (ok t, u)
      → ((is_there f t ≡ true) × IsSeen vf w u) ⊎ ((is_there f t ≡ false) × IsAbsent vf w u)
  unfolding is_there
  stat-Looks vf (success done) w u e =
      inl (refl, inl (attempt-success_eq {F = Error} (f.stat (device_at vf)) w e))
  stat-Looks vf (failure why) w u e =
      let failed = attempt-failure_eq {F = Error} (f.stat (device_at vf)) w e in
      elim (Bool-cases (f.is_not_exist why)) [
        | inl gone ↦ inr (ap not gone, record { why = why; failed = failed; not_exist = gone })
        | inr other ↦ inl (ap not other, inr (why, failed, other))
      ]

  find_vf-FindsFirst :
      (rounds vf : ℕ) (w v : W) (k : ℕ)
      → find_vf f pf_name vf_name rounds vf w ≡ (ok (some k), v)
      → FindsFirst rounds vf w k v
  unfolding find_vf
  find_vf-FindsFirst zero vf w v k e = cc (ap (λ r. r.0) e)
  find_vf-FindsFirst (suc rounds) vf w v k e =
      by_parts_eq (attempt (f.stat (device_at vf))) _ w e λ found u ran e1.
        elim (stat-Looks vf found w u ran) [
          | inl (p, there) ↦
              let done =
                sym (
                  if_true (is_there f found) (pure (some vf))
                    (find_vf f pf_name vf_name rounds (vf + 1)) u p)
                ∙ e1 in
              let q : vf ≡ k = cc (ap (λ r. r.0) done) in
              subst (λ x. FindsFirst (suc rounds) vf w x v) q
                (subst (λ x. FindsFirst (suc rounds) vf w vf x) (ap (λ r. r.1) done) (seen there))
          | inr (p, gone) ↦ absent gone (
              find_vf-FindsFirst rounds (vf + 1) u v k (
                sym (
                  if_false (is_there f found) (pure (some vf))
                    (find_vf f pf_name vf_name rounds (vf + 1)) u p)
                ∙ e1))
        ]

  module _ (n : Netlink W) where
    -- From `w` to `u` the PF is looked up by its name, and the VLAN of its VF `vf` is set to 0.
    pub record Resets (vf : ℕ) (w u : W) : Type 0 where
      pub pf_link : Link
      pub looked_up : W
      pub looks_up : n.link_by_name pf_name w ≡ (ok pf_link, looked_up)
      pub sets : n.link_set_vf_vlan pf_link (pos vf) (pos 0) looked_up ≡ (ok tt, u)

    reset_found-Resets :
        (found : Option ℕ) (w v : W)
        → reset_found n f pf_name vf_name found w ≡ (ok tt, v)
        → (vf : ℕ) × (found ≡ some vf) × Resets vf w v
    unfolding reset_found
    reset_found-Resets none w v e = cc (ap (λ r. r.0) e)
    reset_found-Resets (some vf) w v e =
        by_parts_eq
          (n.link_by_name pf_name orelse λ _. errorf "Master device %s not found\n" (pf_name ∷ []))
          _ w e
          λ pf_link u ran e1. (
            vf,
            refl,
            record {
              pf_link = pf_link;
              looked_up = u;
              looks_up = orelse-ok_eq (n.link_by_name pf_name) _ w ran;
              sets =
                  orelse-ok_eq (n.link_set_vf_vlan pf_link (pos vf) (pos 0))
                    (wrapf "failed to reset vlan tag for vf %d: %v" (itoa vf ∷ [])) u e1;
            },
          )

    -- The VF among `k`, from `w` to `u`
    abbrev pub ResetsFirst : ℕ → W → W → Type 0
    ResetsFirst k w u = (vf : ℕ) × (x : W) × FindsFirst k 0 w vf x × Resets vf x u

    reset_among-ResetsFirst :
        (total : ℤ) (w v : W)
        → reset_among n f pf_name vf_name total w ≡ (ok tt, v)
        → (k : ℕ) × (total ≡ pos k) × ResetsFirst k w v
    unfolding reset_among
    reset_among-ResetsFirst (pos zero) w v e = cc (ap (λ r. r.0) e)
    reset_among-ResetsFirst (negsuc k) w v e = cc (ap (λ r. r.0) e)
    reset_among-ResetsFirst (pos (suc k)) w v e =
        by_parts_eq (find_vf f pf_name vf_name (suc k) 0) _ w e λ found u ran e1.
          let (vf, is_vf, resets) = reset_found-Resets found u v e1 in
          (
            suc k,
            refl,
            (vf, u, find_vf-FindsFirst (suc k) 0 w u vf (ran ∙ ap (λ o. (ok o, u)) is_vf), resets),
          )

    -- A `resetVfVlan` that succeeds has read the number of the PF's VFs, then called `Stat` of the
    -- device under one VF after the other, below that number, until one for which `Stat` does not tell
    -- that the device does not exist, and then looked up the PF by its name and set the VLAN of this
    -- VF to 0.
    pub reset_vf_vlan-ResetsFirst :
        (w v : W)
        → reset_vf_vlan n f pf_name vf_name w ≡ (ok tt, v)
        → (k : ℕ) × (counted : W) × (get_sriov_numfs f pf_name w ≡ (ok (pos k), counted))
          × ResetsFirst k counted v
    unfolding reset_vf_vlan
    reset_vf_vlan-ResetsFirst w v e =
        by_parts_eq (get_sriov_numfs f pf_name) _ w e λ total u counted e1.
          let (k, is_k, rest) = reset_among-ResetsFirst total u v e1 in
          (k, u, counted ∙ ap (λ t. (ok t, u)) is_k, rest)
