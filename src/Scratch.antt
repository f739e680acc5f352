-- ===== src/Scratch.antt =====
-- The configuration that an ADD leaves behind for the DEL, sriov/sriov.go: `saveScratchNetConf`,
-- `consumeScratchNetConf`, `saveNetConf`, `getNetConf`.

pub mod RoundTrip
use rit_k8s_rdma_sriov_cni.Base.{String, [], ◌∷◌}
use rit_k8s_rdma_sriov_cni.Go.{Error, wrapf, Run, of_tried, ◌>>=◌, ◌>>◌, ◌orelse◌, deferring}
use rit_k8s_rdma_sriov_cni.Go.Strings.{join}
use rit_k8s_rdma_sriov_cni.Go.FilePath.{join_path}
use rit_k8s_rdma_sriov_cni.Conf.{NetConf}
use rit_k8s_rdma_sriov_cni.Host.{Files, Json}

module _ {W : Type 0} (f : Files W) where
  unfoldable pub save_scratch_net_conf : String → String → String → Run W Error Unit
  save_scratch_net_conf container_id data_dir netconf = do
    f.mkdir_all data_dir
        orelse wrapf "failed to create the sriov data directory(%q): %v" (data_dir ∷ [])
    let path = join_path data_dir container_id
    f.write_file path netconf
        orelse wrapf "failed to write container data in the path(%q): %v" (path ∷ [])

  unfoldable pub consume_scratch_net_conf : String → String → Run W Error String
  consume_scratch_net_conf container_id data_dir =
      let path = join_path data_dir container_id in
      deferring (f.remove path) (
        f.read_file path
        orelse wrapf "failed to read container data in the path(%q): %v" (path ∷ []))

-- The name of the file, from the container and the interface
abbrev pub reference : String → String → String
reference cid ifname = join (cid ∷ ifname ∷ []) "-"

module _ {W : Type 0} (f : Files W) (j : Json) where
  unfoldable pub save_net_conf : String → String → NetConf → Run W Error Unit
  unfolding save_scratch_net_conf
  save_net_conf cid data_dir conf = do
    bytes ←
        of_tried (j.marshal_net_conf conf) orelse wrapf "error serializing delegate netconf: %v" []
    save_scratch_net_conf f (reference cid conf.dpdk_conf.ifname) data_dir bytes

  -- The receiver is a new `NetConf{}` at each call, and the last argument is not used.
  unfoldable pub get_net_conf : String → String → String → Run W Error NetConf
  unfolding consume_scratch_net_conf
  get_net_conf cid pod_if_name data_dir = do
    bytes ← consume_scratch_net_conf f (reference cid pod_if_name) data_dir
    of_tried (j.unmarshal_net_conf bytes) orelse wrapf "failed to parse netconf: %v" []
