-- ===== src/Scratch/RoundTrip.antt =====
-- Saving a configuration and reading it back: sriov/sriov.go, `saveNetConf` and `getNetConf`.
use rit_k8s_rdma_sriov_cni.Base.{String, ◌≡◌, ap, ◌∙◌, [], ◌∷◌, ◌≢◌}
use rit_k8s_rdma_sriov_cni.Go.{
  Error, wrapf, ok, err, Tried, success, failure, Run, of_tried, ◌orelse◌,
}
use rit_k8s_rdma_sriov_cni.Go.Laws.{
  by_parts, by_parts_eq, orelse-ok_eq, orelse_eq, bind_eq, deferring_eq, deferring-ok,
  orelse_eq_err,
}
use rit_k8s_rdma_sriov_cni.Go.FilePath.{join_path}
use rit_k8s_rdma_sriov_cni.Conf.{NetConf}
use rit_k8s_rdma_sriov_cni.Host.{Files, Json}
use rit_k8s_rdma_sriov_cni.Scratch.{
  save_scratch_net_conf, consume_scratch_net_conf, reference, save_net_conf, get_net_conf,
}

-- What is assumed of files: what was written is read, and what was removed is not.
pub record KeepsFiles {W : Type 0} (f : Files W) : Type 0 where
  pub read-write :
      (path bytes : String) (w v : W)
      → f.write_file path bytes w ≡ (ok tt, v)
      → f.read_file path v ≡ (ok bytes, v)
  pub read-remove :
      (path : String) (w v : W)
      → f.remove path w ≡ (ok tt, v)
      → (e : Error) × (f.read_file path v ≡ (err e, v))

-- What is assumed of package json: the configuration, marshalled, is unmarshalled unchanged.
abbrev pub MarshalsBack : Json → NetConf → Type 0
MarshalsBack j conf =
    (bytes : String)
    → j.marshal_net_conf conf ≡ success bytes
    → j.unmarshal_net_conf bytes ≡ success conf

of_tried-ok :
    {W A : Type 0} (r : Tried Error A) (w v : W) (a : A) → of_tried r w ≡ (ok a, v) → r ≡ success a
of_tried-ok (success x) w v a e = cc (ap (λ p. p.0) e)
of_tried-ok (failure x) w v a e = cc (ap (λ p. p.0) e)

module _ {W : Type 0} (f : Files W) (j : Json) (laws : KeepsFiles f) where
  abbrev path_of : String → String → String → String
  path_of cid pod_if_name data_dir = join_path data_dir (reference cid pod_if_name)

  -- After a save the file holds the marshalled configuration.
  module _ (cid data_dir : String) (conf : NetConf) where
    abbrev path : String
    path = path_of cid conf.dpdk_conf.ifname data_dir

    abbrev marshalling : Run W Error String
    marshalling =
        of_tried (j.marshal_net_conf conf) orelse wrapf "error serializing delegate netconf: %v" []

    abbrev making_dir : Run W Error Unit
    making_dir =
        f.mkdir_all data_dir
        orelse wrapf "failed to create the sriov data directory(%q): %v" (data_dir ∷ [])

    abbrev unreadable : Error → Error
    unreadable = wrapf "failed to read container data in the path(%q): %v" (path ∷ [])

    abbrev reading : Run W Error String
    reading = f.read_file path orelse unreadable

    written :
        (w v : W)
        → save_net_conf f j cid data_dir conf w ≡ (ok tt, v)
        → (bytes : String) × (j.marshal_net_conf conf ≡ success bytes)
          × (f.read_file path v ≡ (ok bytes, v))
    unfolding save_net_conf save_scratch_net_conf
    written w v saved =
        by_parts_eq marshalling
          (save_scratch_net_conf f (reference cid conf.dpdk_conf.ifname) data_dir) w saved
          λ bytes w1 marshalled e1. by_parts_eq making_dir _ w1 e1 λ _ w2 _ e2. (
            bytes,
            of_tried-ok (j.marshal_net_conf conf) w w1 bytes (
                orelse-ok_eq (of_tried (j.marshal_net_conf conf))
                  (wrapf "error serializing delegate netconf: %v" []) w marshalled),
            laws.read-write path bytes w2 v (
                orelse-ok_eq (f.write_file path bytes)
                  (wrapf "failed to write container data in the path(%q): %v" (path ∷ [])) w2 e2),
          )

    -- Over files that keep what is written, and if json gives the configuration back: a configuration
    -- that was saved is read back unchanged by the next `getNetConf` for its interface, if the file
    -- can be removed; then the same `getNetConf` never succeeds again.
    pub get-save :
        (w v u : W)
        → MarshalsBack j conf
        → save_net_conf f j cid data_dir conf w ≡ (ok tt, v)
        → f.remove path v ≡ (ok tt, u)
        → (get_net_conf f j cid conf.dpdk_conf.ifname data_dir v ≡ (ok conf, u))
          × ((c : NetConf) → (get_net_conf f j cid conf.dpdk_conf.ifname data_dir u).0 ≢ ok c)
    unfolding get_net_conf consume_scratch_net_conf
    get-save w v u json saved removed = (read_back, gone)
      where
        ref : String
        ref = reference cid conf.dpdk_conf.ifname

        read_back : get_net_conf f j cid conf.dpdk_conf.ifname data_dir v ≡ (ok conf, u)
        read_back =
            let (bytes, marshalled, read) = written w v saved in
            bind_eq (consume_scratch_net_conf f ref data_dir) _ v (
              deferring_eq (f.remove path) reading v
                (orelse_eq (f.read_file path) unreadable v read) removed)
            ∙ orelse_eq (of_tried (j.unmarshal_net_conf bytes))
                (wrapf "failed to parse netconf: %v" []) u
                (ap (λ r. of_tried r u) (json bytes marshalled))

        gone : (c : NetConf) → (get_net_conf f j cid conf.dpdk_conf.ifname data_dir u).0 ≢ ok c
        gone c e = by_parts (consume_scratch_net_conf f ref data_dir) _ u e λ bytes w1 ran _.
            let (x, unread) = laws.read-remove path v u removed in
            cc (
              deferring-ok (f.remove path) reading u (ap (λ r. r.0) ran),
              ap (λ r. r.0) (orelse_eq_err (f.read_file path) unreadable u unread),
            )
