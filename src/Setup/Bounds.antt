-- ===== src/Setup/Bounds.antt =====
-- The numbers of VFs in `getsriovNumfs` and `setupVF`, against the `int` of the code.
use rit_k8s_rdma_sriov_cni.Base.{
  ap, ℕ, ◌+◌, ◌^◌, ◌<◌, ◌≡◌, String, Option, none, some, [], ◌∷◌, arith, ◌=?◌,
}
use rit_k8s_rdma_sriov_cni.Go.{ok, errorf, wrapf, fail, ◌orelse◌}
use rit_k8s_rdma_sriov_cni.Go.Laws.{by_parts, by_branch}
use rit_k8s_rdma_sriov_cni.Go.Strconv.{ℤ, pos, negsuc, parse_int}
use rit_k8s_rdma_sriov_cni.Go.Strconv.Bounds.{IsInt64, parse_int-IsInt64}
use rit_k8s_rdma_sriov_cni.Go.Strings.{trim_space}
use rit_k8s_rdma_sriov_cni.Conf.{NetConf}
use rit_k8s_rdma_sriov_cni.Host.{Host, Ns, InterfaceRequest, Files}
use rit_k8s_rdma_sriov_cni.Device.{get_sriov_numfs, parsed_number}
use rit_k8s_rdma_sriov_cni.Setup.{VfSetup, rounds_of, setup_vf}
use rit_k8s_rdma_sriov_cni.Setup.Result.{setup_vf-IsSetUp}

module _ {W : Type 0} (f : Files W) where
  parsed_number-some :
      (if_name : String) (o : Option ℤ) (w : W) (z : ℤ)
      → (parsed_number f if_name o w).0 ≡ ok z
      → o ≡ some z
  unfolding parsed_number
  parsed_number-some if_name none w z e = cc
  parsed_number-some if_name (some x) w z e = cc

  -- A count of VFs that was read is a 64-bit number.
  get_sriov_numfs-IsInt64 :
      (if_name : String) (w : W) (z : ℤ) → (get_sriov_numfs f if_name w).0 ≡ ok z → IsInt64 z
  unfolding get_sriov_numfs
  get_sriov_numfs-IsInt64 if_name w z e =
      by_parts
        (f.lstat _ orelse wrapf "failed to open the sriov_numfs of device %q: %v" (if_name ∷ [])) _
        w e
        λ _ w1 _ e1.
          by_parts
            (f.read_file _
              orelse wrapf "failed to read the sriov_numfs of device %q: %v" (if_name ∷ []))
            _ w1 e1
            λ content w2 _ e2.
              by_branch (content =? "") (fail (errorf "no data in the file %q" (_ ∷ [])))
                (parsed_number f if_name (parse_int (trim_space content))) w2 e2 (λ no. cc)
                λ yes.
                  parse_int-IsInt64 (trim_space content) z
                    (parsed_number-some if_name (parse_int (trim_space content)) w2 z yes)

below : (total : ℤ) (vf : ℕ) → IsInt64 total → vf < rounds_of total → vf + 1 < 2 ^ 63
below (pos n) vf fits lt = omega (arith, fits, lt)
below (negsuc n) vf fits lt = absurd (omega (arith, lt))

module _ {W : Type 0} (h : Host W) where
  -- After a `setupVF` that succeeds, the VF's number is the one in the configuration, and the number
  -- after it is less than 2^63, so the loop's counter has not overflowed a 64-bit `int`.
  pub setup_vf-fits :
      (conf : NetConf) (if_name pod_if_name cid : String) (netns : Ns) (request : InterfaceRequest)
      (w : W) {s : VfSetup}
      → (setup_vf h conf if_name pod_if_name cid netns request w).0 ≡ ok s
      → (s.conf.dpdk_conf.vfid ≡ pos s.vf_idx) × (s.vf_idx + 1 < 2 ^ 63)
  setup_vf-fits conf if_name pod_if_name cid netns request w {s} e =
      let (total, _, counted, is_set_up, _) =
        setup_vf-IsSetUp h conf if_name pod_if_name cid netns request w e in
      (
        is_set_up.vfid,
        below total s.vf_idx
            (get_sriov_numfs-IsInt64 h.files if_name (h.link_by_name if_name w).1 total
              (ap (λ r. r.0) counted))
            is_set_up.in_range,
      )
