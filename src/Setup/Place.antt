-- ===== src/Setup/Place.antt =====
-- The second half of `setupVF`: the devices of the VF are sorted, moved to the pod's namespace,
-- named and recorded.
use rit_k8s_rdma_sriov_cni.Base.{
  ℕ, ◌+◌, ◌-◌, String, ◌<>◌, Bool, ◌&&◌, some, List, [], ◌∷◌, reverse, length, ltb, ◌==◌, ◌=?◌,
  if◌then◌else◌,
}
use rit_k8s_rdma_sriov_cni.Go.{
  Error, wrapf, Run, Tried, success, failure, pure, panics, ◌>>=◌, ◌>>◌, ◌orelse◌, attempt, ignore,
}
use rit_k8s_rdma_sriov_cni.Go.Strconv.{itoa}
use rit_k8s_rdma_sriov_cni.Conf.{NetConf, max_shared_vf}
use rit_k8s_rdma_sriov_cni.Host.{Host, Link, Ns}
use rit_k8s_rdma_sriov_cni.Device.{rename_link, set_up_link}
use rit_k8s_rdma_sriov_cni.Scratch.{save_net_conf}
use rit_k8s_rdma_sriov_cni.Setup.Select.{VfFailure, failed, passed}

-- `Attrs()` of the link that `LinkByName` returned; of nil it panics.
link_index : {W : Type 0} → Tried Error Link → Run W VfFailure ℕ
link_index (success l) = pure l.index
link_index (failure e) = panics

module _ {W : Type 0} (h : Host W) where
  -- `LinksByIndex.Less`; both errors are dropped.
  unfoldable pub link_less : String → String → Run W VfFailure Bool
  unfolding link_index
  link_less a b = do
    link_a ← attempt (h.link_by_name a)
    link_b ← attempt (h.link_by_name b)
    i ← link_index link_a
    j ← link_index link_b
    pure (ltb i j)

  -- `sort.Sort` is insertion sort on up to six elements; here there are two at most. The sorted
  -- part stands with its last element first.
  insert_last : String → List String → Run W VfFailure (List String)
  insert_last x [] = pure (x ∷ [])
  insert_last x (y ∷ ys) = do
    less ← link_less x y
    let deeper = insert_last x ys
    if less then (do rest ← deeper; pure (y ∷ rest)) else pure (x ∷ y ∷ ys)

  insertion_sort : List String → List String → Run W VfFailure (List String)
  insertion_sort done [] = pure (reverse done)
  insertion_sort done (x ∷ xs) = do done' ← insert_last x done; insertion_sort done' xs

  unfoldable pub sort_infos : List String → Run W VfFailure (List String)
  unfolding insertion_sort insert_last link_less
  sort_infos infos = if ltb 1 (length infos) then insertion_sort [] infos else pure infos

  -- A device named eth0 is set down and renamed; the errors are dropped.
  unfoldable pub away_from_eth0 : Link → String → Run W Error String
  away_from_eth0 vf_dev info =
      if info =? "eth0"
      then (do
        ignore (h.link_set_down vf_dev)
        n ← h.intn 9999
        let vf_name = "sriov" <> itoa n
        ignore (rename_link h.netlink info vf_name)
        pure vf_name)
      else pure info

  -- The loop that moves the devices; the last name is the one that is used afterwards.
  unfoldable pub move_links : NetConf → ℕ → Ns → String → List String → Run W VfFailure String
  unfolding away_from_eth0
  move_links conf vf netns vf_name [] = pure vf_name
  move_links conf vf netns vf_name (info ∷ infos) = do
    vf_dev ←
        h.link_by_name info
        orelse failed (some vf) conf "failed to lookup vf device %q: %v" (info ∷ [])
    vf_name' ← away_from_eth0 vf_dev info orelse passed (some vf) conf
    h.link_set_up vf_dev
        orelse failed (some vf) conf "failed to setup vf %d device: %v" (itoa vf ∷ [])
    h.link_set_ns_fd vf_dev netns
        orelse failed (some vf) conf "failed to move vf %d to netns: %v" (itoa vf ∷ [])
    move_links conf vf netns vf_name' infos

  -- The loop in the pod's namespace, in round `i` with the devices that are left, and the name that
  -- the last round used.
  unfoldable pub rename_links :
      Bool → String → String → ℕ → ℕ → List String → ℕ → String → Run W Error String
  rename_links l2 pod_if_name vf_name vf total [] i if_name = pure if_name
  rename_links l2 pod_if_name vf_name vf total (info ∷ infos) i if_name = do
    let if_name' =
        if (total == max_shared_vf) && (i == total)
        then pod_if_name <> "d" <> itoa (i - 1)
        else if_name
    rename_link h.netlink vf_name if_name'
        orelse wrapf "failed to rename %d vf of the device %q to %q: %v"
            (itoa vf ∷ info ∷ if_name' ∷ [])
    if l2
        then set_up_link h.netlink if_name'
          orelse wrapf "failed to set up the pod interface name %q: %v" (if_name' ∷ [])
        else pure tt
    rename_links l2 pod_if_name vf_name vf total infos (i + 1) if_name'

  -- The function that runs in the pod's namespace
  unfoldable pub name_links :
      NetConf → String → String → String → ℕ → List String → Run W Error Unit
  unfolding rename_links
  name_links conf pod_if_name cid vf_name vf infos = do
    if_name ← rename_links conf.l2_mode pod_if_name vf_name vf (length infos) infos 1 pod_if_name
    save_net_conf h.files h.json cid conf.cni_dir conf
        orelse wrapf "failed to save pod interface name %q: %v" (if_name ∷ [])
