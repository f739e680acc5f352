-- ===== src/Setup/Select.antt =====
-- The loop of `setupVF` that chooses a VF.
use rit_k8s_rdma_sriov_cni.Base.{
  ℕ, zero, suc, ◌+◌, String, ◌<>◌, Bool, true, Option, none, some, List, [], ◌∷◌, length, leb, ◌==◌,
  if◌then◌else◌,
}
use rit_k8s_rdma_sriov_cni.Go.{
  Error, errorf, wrapf, Run, Tried, success, failure, pure, fail, ◌>>=◌, ◌>>◌, ◌orelse◌, attempt,
}
use rit_k8s_rdma_sriov_cni.Go.Strconv.{itoa}
use rit_k8s_rdma_sriov_cni.Conf.{NetConf, max_shared_vf}
use rit_k8s_rdma_sriov_cni.Host.{Host, InterfaceRequest}
use rit_k8s_rdma_sriov_cni.Device.{virtfn_dir, get_pci_address, set_vf_bandwidth_limits}

-- An error of `setupVF`, with the VF's index that it returns and the configuration as it then is.
pub record VfFailure : Type 0 where
  pub vf_idx : Option ℕ
  pub conf : NetConf
  pub cause : Error

abbrev pub passed : Option ℕ → NetConf → Error → VfFailure
passed vf conf e = record { vf_idx = vf; conf = conf; cause = e }

abbrev pub failed : Option ℕ → NetConf → String → List String → Error → VfFailure
failed vf conf format args e = passed vf conf (wrapf format args e)

abbrev pub failing : {W A : Type 0} → Option ℕ → NetConf → Error → Run W VfFailure A
failing vf conf e = fail (passed vf conf e)

-- The variables of the loop
pub record Choice : Type 0 where
  pub conf : NetConf
  pub vf_idx : ℕ
  pub infos : List String
  pub pci_addr : String

-- How a round ends: by `continue`, or by `break`
pub data Round : Type 0 where
  again : Choice → Round
  chosen : Choice → Round

module _ {W : Type 0} (h : Host W) (if_name : String) (request : InterfaceRequest) where
  -- The VF has one device or two.
  unfoldable pub take_vf : ℕ → Choice → List String → Run W VfFailure Round
  take_vf vf c infos = do
    let conf = if length infos == max_shared_vf then record c.conf { shared_vf = true } else c.conf
    if leb (length infos) max_shared_vf
        then (do
          pci_addr ←
              get_pci_address h.files if_name vf
              orelse failed none conf "err in getting pci address - %q" []
          set_vf_bandwidth_limits h.processes if_name (itoa vf) (itoa request.min_tx_rate)
                (itoa request.max_tx_rate)
              orelse failed (some vf) conf
                  "Failed setting the min and max tx rates on PF[%s] VF[%d]: %s"
                  (if_name ∷ itoa vf ∷ [])
          pure (chosen (record { conf = conf; vf_idx = vf; infos = infos; pci_addr = pci_addr })))
        else failing none conf (
            errorf "mutiple network devices in directory %s"
              ((virtfn_dir if_name vf <> "/net") ∷ []))

  -- A directory without devices is passed over, unless it is the last one's.
  unfoldable pub look_at : ℕ → ℕ → Choice → List String → Run W VfFailure Round
  look_at total vf c [] =
      if vf + 1 == total
      then failing none c.conf (
          errorf "no Virtual function exist in directory %s, last vf is virtfn%d"
            ((virtfn_dir if_name vf <> "/net") ∷ itoa vf ∷ []))
      else pure (again (record c { infos = [] }))
  look_at total vf c (info ∷ infos) = take_vf vf c (info ∷ infos)

  unfoldable pub after_lstat : ℕ → ℕ → Choice → Tried Error Bool → Run W VfFailure Round
  after_lstat total vf c (failure e) =
      if vf + 1 == total
      then failing none c.conf
          (wrapf "failed to open the virtfn%d dir of the device %q: %v" (itoa vf ∷ if_name ∷ []) e)
      else pure (again c)
  after_lstat total vf c (success _) = do
    infos ←
        h.read_dir (virtfn_dir if_name vf <> "/net")
        orelse failed none c.conf "failed to read the virtfn%d dir of the device %q: %v"
            (itoa vf ∷ if_name ∷ [])
    look_at total vf c infos

  -- The body of the loop
  unfoldable pub vf_round : ℕ → ℕ → Choice → Run W VfFailure Round
  vf_round total vf c = do
    opened ← attempt (h.lstat (virtfn_dir if_name vf <> "/net"))
    after_lstat total vf c opened

  unfoldable pub follow : (Choice → Run W VfFailure Choice) → Round → Run W VfFailure Choice
  follow next (again c) = next c
  follow next (chosen c) = pure c

  -- The loop from `vf` on, with the rounds that are left
  unfoldable pub scan_vfs : ℕ → ℕ → ℕ → Choice → Run W VfFailure Choice
  scan_vfs total zero vf c = pure c
  scan_vfs total (suc rounds) vf c = do
    r ← vf_round total vf c
    follow (scan_vfs total rounds (vf + 1)) r

module _ {W : Type 0} (h : Host W) where
  unfoldable pub choose_vf : NetConf → String → InterfaceRequest → ℕ → Run W VfFailure Choice
  choose_vf conf if_name request total =
      scan_vfs h if_name request total total 0
        (record { conf = conf; vf_idx = 0; infos = []; pci_addr = "" })
