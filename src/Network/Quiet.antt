-- ===== src/Network/Quiet.antt =====
-- The calls of the setup and the release of a VF that leave the view of the devices as it is.
use rit_k8s_rdma_sriov_cni.Base.{
  ℕ, zero, suc, ◌+◌, String, Bool, true, false, Option, none, some, refl, if◌then◌else◌,
}
use rit_k8s_rdma_sriov_cni.Go.{
  Error, Outcome, ok, err, exit, panic, Run, Tried, success, failure, continue, pure, fail, panics,
  of_tried, attempt, deferring, run_deferred, ◌>>=◌, ◌orelse◌,
}
use rit_k8s_rdma_sriov_cni.Go.Strconv.{ℤ, pos, negsuc}
use rit_k8s_rdma_sriov_cni.Conf.{NetConf}
use rit_k8s_rdma_sriov_cni.Host.{Host}
use rit_k8s_rdma_sriov_cni.Network.{View, Same, IsQuiet, Obeys, Same-trans}
use rit_k8s_rdma_sriov_cni.Device.{
  get_sriov_numfs, reset_vf_vlan, get_shared_pf, set_vf_bandwidth_limits, set_up_link, find_vf,
  parsed_number, reset_among, reset_found, cut_name, found_pf,
}
use rit_k8s_rdma_sriov_cni.Scratch.{
  save_net_conf, save_scratch_net_conf, get_net_conf, consume_scratch_net_conf,
}
use rit_k8s_rdma_sriov_cni.Release.{sees_shared}

module _ {W : Type 0} (v : View W) where
  module _ {E A B : Type 0} where
    quiet_continue :
        (r : Outcome E A) (f : A → Run W E B) (w u : W)
        → Same v w u
        → ((a : A) → IsQuiet v (f a))
        → Same v w (continue r f u).1
    quiet_continue (ok a) f w u s k = Same-trans v s ((k a).same u)
    quiet_continue (err e) f w u s k = s
    quiet_continue exit f w u s k = s
    quiet_continue panic f w u s k = s

    pub bind-IsQuiet :
        {m : Run W E A} {f : A → Run W E B}
        → IsQuiet v m
        → ((a : A) → IsQuiet v (f a))
        → IsQuiet v (m >>= f)
    bind-IsQuiet {m} {f} q k = record {
      same = λ w. quiet_continue (m w).0 f w (m w).1 (q.same w) k;
    }

  module _ {E A : Type 0} where
    pub pure-IsQuiet : (a : A) → IsQuiet v {E = E} (pure a)
    pure-IsQuiet a = record { same = λ w. (refl, refl) }

    pub fail-IsQuiet : (e : E) → IsQuiet v {A = A} (fail e)
    fail-IsQuiet e = record { same = λ w. (refl, refl) }

    pub panics-IsQuiet : IsQuiet v {E = E} {A = A} panics
    panics-IsQuiet = record { same = λ w. (refl, refl) }

    pub if-IsQuiet :
        (b : Bool) {m n : Run W E A} → IsQuiet v m → IsQuiet v n → IsQuiet v (if b then m else n)
    if-IsQuiet true p q = p
    if-IsQuiet false p q = q

    quiet_deferred :
        (r : Outcome E A) (d : Run W Error Unit) (w u : W)
        → Same v w u
        → IsQuiet v d
        → Same v w (run_deferred r d u).1
    quiet_deferred (ok a) d w u s q = Same-trans v s (q.same u)
    quiet_deferred (err e) d w u s q = Same-trans v s (q.same u)
    quiet_deferred exit d w u s q = s
    quiet_deferred panic d w u s q = Same-trans v s (q.same u)

    pub deferring-IsQuiet :
        {d : Run W Error Unit} {m : Run W E A}
        → IsQuiet v d
        → IsQuiet v m
        → IsQuiet v (deferring d m)
    deferring-IsQuiet {d} {m} q p = record {
      same = λ w. quiet_deferred (m w).0 d w (m w).1 (p.same w) q;
    }

    pub of_tried-IsQuiet : (r : Tried E A) → IsQuiet v (of_tried r)
    of_tried-IsQuiet (success a) = record { same = λ w. (refl, refl) }
    of_tried-IsQuiet (failure e) = record { same = λ w. (refl, refl) }

  module _ {E F A : Type 0} where
    pub orelse-IsQuiet : {m : Run W E A} (f : E → F) → IsQuiet v m → IsQuiet v (m orelse f)
    orelse-IsQuiet f q = record { same = λ w. q.same w }

    pub attempt-IsQuiet : {m : Run W E A} → IsQuiet v m → IsQuiet v (attempt {F = F} m)
    attempt-IsQuiet q = record { same = λ w. q.same w }

module _ {W : Type 0} (h : Host W) (v : View W) (law : Obeys h v) where
  parsed_number-IsQuiet :
      (if_name : String) (n : Option ℤ) → IsQuiet v (parsed_number h.files if_name n)
  unfolding parsed_number
  parsed_number-IsQuiet if_name (some n) = pure-IsQuiet v n
  parsed_number-IsQuiet if_name none = fail-IsQuiet v _

  pub get_sriov_numfs-IsQuiet : (if_name : String) → IsQuiet v (get_sriov_numfs h.files if_name)
  unfolding get_sriov_numfs
  get_sriov_numfs-IsQuiet if_name = bind-IsQuiet v (orelse-IsQuiet v _ (law.seeing _)) λ _.
      bind-IsQuiet v (orelse-IsQuiet v _ (law.reading _))
        λ content. if-IsQuiet v _ (fail-IsQuiet v _) (parsed_number-IsQuiet if_name _)

  find_vf-IsQuiet :
      (pf_name vf_name : String) (rounds vf : ℕ)
      → IsQuiet v (find_vf h.files pf_name vf_name rounds vf)
  unfolding find_vf
  find_vf-IsQuiet pf_name vf_name zero vf = pure-IsQuiet v none
  find_vf-IsQuiet pf_name vf_name (suc rounds) vf =
      bind-IsQuiet v (attempt-IsQuiet v (law.testing _)) λ found.
        if-IsQuiet v _ (pure-IsQuiet v (some vf)) (find_vf-IsQuiet pf_name vf_name rounds (vf + 1))

  reset_found-IsQuiet :
      (pf_name vf_name : String) (found : Option ℕ)
      → IsQuiet v (reset_found h.netlink h.files pf_name vf_name found)
  unfolding reset_found
  reset_found-IsQuiet pf_name vf_name none = fail-IsQuiet v _
  reset_found-IsQuiet pf_name vf_name (some vf) =
      bind-IsQuiet v (orelse-IsQuiet v _ (law.looking pf_name))
        λ link. orelse-IsQuiet v _ (law.setting_vlan link (pos vf) (pos 0))

  reset_among-IsQuiet :
      (pf_name vf_name : String) (total : ℤ)
      → IsQuiet v (reset_among h.netlink h.files pf_name vf_name total)
  unfolding reset_among
  reset_among-IsQuiet pf_name vf_name (pos (suc k)) =
      bind-IsQuiet v (find_vf-IsQuiet pf_name vf_name (suc k) 0)
        (reset_found-IsQuiet pf_name vf_name)
  reset_among-IsQuiet pf_name vf_name (pos zero) = fail-IsQuiet v _
  reset_among-IsQuiet pf_name vf_name (negsuc k) = fail-IsQuiet v _

  pub reset_vf_vlan-IsQuiet :
      (pf_name vf_name : String) → IsQuiet v (reset_vf_vlan h.netlink h.files pf_name vf_name)
  unfolding reset_vf_vlan
  reset_vf_vlan-IsQuiet pf_name vf_name =
      bind-IsQuiet v (get_sriov_numfs-IsQuiet pf_name) (reset_among-IsQuiet pf_name vf_name)

  cut_name-IsQuiet : (full if_name : String) → IsQuiet v (cut_name full if_name)
  unfolding cut_name
  cut_name-IsQuiet full if_name = if-IsQuiet v _ (panics-IsQuiet v) (pure-IsQuiet v _)

  found_pf-IsQuiet : (file : Option String) → IsQuiet v (found_pf h.files file)
  unfolding found_pf
  found_pf-IsQuiet none = fail-IsQuiet v _
  found_pf-IsQuiet (some file) = pure-IsQuiet v file

  pub get_shared_pf-IsQuiet : (if_name : String) → IsQuiet v (get_shared_pf h.files if_name)
  unfolding get_shared_pf
  get_shared_pf-IsQuiet if_name = bind-IsQuiet v (orelse-IsQuiet v _ (law.seeing _)) λ symlink.
      if-IsQuiet v _ (fail-IsQuiet v _) (
        bind-IsQuiet v (attempt-IsQuiet v (law.following _)) λ full.
          bind-IsQuiet v (cut_name-IsQuiet _ if_name) λ parent_dir.
            bind-IsQuiet v (attempt-IsQuiet v (law.listing parent_dir))
              λ dir_list. found_pf-IsQuiet _)

  pub set_vf_bandwidth_limits-IsQuiet :
      (pf_name vf_number low high : String)
      → IsQuiet v (set_vf_bandwidth_limits h.processes pf_name vf_number low high)
  unfolding set_vf_bandwidth_limits
  set_vf_bandwidth_limits-IsQuiet pf_name vf_number low high = orelse-IsQuiet v _ (law.starting _)

  pub set_up_link-IsQuiet : (if_name : String) → IsQuiet v (set_up_link h.netlink if_name)
  unfolding set_up_link
  set_up_link-IsQuiet if_name =
      bind-IsQuiet v (orelse-IsQuiet v _ (law.looking if_name)) law.setting_up

  pub save_net_conf-IsQuiet :
      (cid data_dir : String) (conf : NetConf)
      → IsQuiet v (save_net_conf h.files h.json cid data_dir conf)
  unfolding save_net_conf save_scratch_net_conf
  save_net_conf-IsQuiet cid data_dir conf =
      bind-IsQuiet v (orelse-IsQuiet v _ (of_tried-IsQuiet v _)) λ bytes.
        bind-IsQuiet v (orelse-IsQuiet v _ (law.making_dir data_dir))
          λ _. orelse-IsQuiet v _ (law.writing _ bytes)

  pub get_net_conf-IsQuiet :
      (cid name data_dir : String) → IsQuiet v (get_net_conf h.files h.json cid name data_dir)
  unfolding get_net_conf consume_scratch_net_conf
  get_net_conf-IsQuiet cid name data_dir =
      bind-IsQuiet v (deferring-IsQuiet v (law.removing _) (orelse-IsQuiet v _ (law.reading _)))
        λ bytes. orelse-IsQuiet v _ (of_tried-IsQuiet v _)

  pub sees_shared-IsQuiet :
      (conf : NetConf) (pod_if_name : String) → IsQuiet v (sees_shared h conf pod_if_name)
  unfolding sees_shared
  sees_shared-IsQuiet conf pod_if_name =
      if-IsQuiet v _ (bind-IsQuiet v (attempt-IsQuiet v (law.looking _)) λ found. pure-IsQuiet v _)
        (pure-IsQuiet v _)
