-- ===== src/Conf/Loading.antt =====
-- What `loadConf` accepts, and what it returns.
use rit_k8s_rdma_sriov_cni.Base.{
  ◌≡◌, ◌≢◌, refl, ap, ◌∙◌, String, true, false, ◌⊎◌, inl, inr, ◌↔◌, [], arith, eq_iff, text_ne,
  Bool-cases, ◌=?◌,
}
use rit_k8s_rdma_sriov_cni.Go.{Error, errorf, wrapf, Tried-cases, Tried, success, failure}
use rit_k8s_rdma_sriov_cni.Conf.{
  NetConf, if0name_message, check_if0name, is_empty_dpdk, with_defaults, checked, load_conf,
}

-- The names that a pod's interface may not have.
abbrev pub IsReserved : String → Type 0
IsReserved s = (s ≡ "eth0") ⊎ (s ≡ "eth1") ⊎ (s ≡ "lo")

-- What holds of a configuration that `loadConf` has returned.
pub record IsLoaded (n : NetConf) : Type 0 where
  pub name_free : ¬ IsReserved n.if0name
  pub has_dir : n.cni_dir ≢ ""
  pub mode : is_empty_dpdk n.dpdk_conf ≡ false → n.dpdk_mode ≡ true

check_if0name-free : (s : String) → check_if0name s ≡ true → ¬ IsReserved s
unfolding check_if0name
check_if0name-free s h =
    ground (arith, eq_iff "eth0" s, eq_iff "eth1" s, eq_iff "lo" s, eq_iff "" s)

free-check_if0name : (s : String) → ¬ IsReserved s → s ≢ "" → check_if0name s ≡ true
unfolding check_if0name
free-check_if0name s h e =
    ground (arith, eq_iff "eth0" s, eq_iff "eth1" s, eq_iff "lo" s, eq_iff "" s)

name_free : (s : String) → (s ≡ "") ⊎ (check_if0name s ≡ true) → ¬ IsReserved s
name_free s (inl e) = λ r. ground (arith, eq_iff "" "eth0", eq_iff "" "eth1", eq_iff "" "lo")
name_free s (inr h) = check_if0name-free s h

checked-accepts : (m : NetConf) → ¬ IsReserved m.if0name → checked m ≡ success (with_defaults m)
unfolding checked
checked-accepts m h = elim (Bool-cases (m.if0name =? "")) [
  | inl e ↦ rw e
  | inr e ↦ rw (e, free-check_if0name m.if0name h (λ p. cc (e, (eq_iff m.if0name "").1 p)))
]

reserved_checks : (s : String) → IsReserved s → ((s =? "") ≡ false) × (check_if0name s ≡ false)
unfolding check_if0name
reserved_checks s (inl e) = rw e (refl, refl)
reserved_checks s (inr (inl e)) = rw e (refl, refl)
reserved_checks s (inr (inr e)) = rw e (refl, refl)

reserved-checked :
    (m : NetConf) → IsReserved m.if0name → checked m ≡ failure (errorf if0name_message [])
unfolding checked
reserved-checked m r = let (p, q) = reserved_checks m.if0name r in rw (p, q)

checked-IsReserved : (m : NetConf) (e : Error) → checked m ≡ failure e → IsReserved m.if0name
unfolding checked check_if0name
checked-IsReserved m e h = ground (
  arith,
  eq_iff "eth0" m.if0name,
  eq_iff "eth1" m.if0name,
  eq_iff "lo" m.if0name,
  eq_iff "" m.if0name,
  eq_iff m.if0name "",
)

with_defaults_id : (n : NetConf) → IsLoaded n → with_defaults n ≡ n
unfolding with_defaults
with_defaults_id n h = elim (Bool-cases (is_empty_dpdk n.dpdk_conf)) [
  | inl e ↦ rw (e, text_ne n.cni_dir "" h.has_dir)
  | inr e ↦ rw (e, text_ne n.cni_dir "" h.has_dir) (cc (h.mode e))
]

module _ (unmarshal : String → Tried Error NetConf) (bytes : String) where
  -- A text that parses to a configuration that was loaded before is loaded unchanged.
  load_conf_again :
      (n : NetConf)
      → IsLoaded n
      → unmarshal bytes ≡ success n
      → load_conf unmarshal bytes ≡ success n
  unfolding load_conf
  load_conf_again n l h =
      rw (h, load_conf) (checked-accepts n l.name_free ∙ ap success (with_defaults_id n l))

  refused :
      ((e : Error) × (load_conf unmarshal bytes ≡ failure e))
      → ((e : Error) × (unmarshal bytes ≡ failure e))
        ⊎ ((m : NetConf) × (unmarshal bytes ≡ success m) × IsReserved m.if0name)
  unfolding load_conf
  refused (e, h) = elim (Tried-cases (unmarshal bytes)) [
    | inl (e', p) ↦ inl (e', p)
    | inr (m, p) ↦ inr (m, p, checked-IsReserved m e (rw (p, load_conf) at h))
  ]

  fails :
      ((e : Error) × (unmarshal bytes ≡ failure e))
        ⊎ ((m : NetConf) × (unmarshal bytes ≡ success m) × IsReserved m.if0name)
      → (e : Error) × (load_conf unmarshal bytes ≡ failure e)
  unfolding load_conf
  fails (inl (e, h)) = (wrapf "failed to load netconf: %v" [] e, rw (h, load_conf))
  fails (inr (m, h, r)) = (errorf if0name_message [], rw (h, load_conf) (reserved-checked m r))

  -- `loadConf` refuses a text exactly if it does not parse, or names a reserved interface.
  pub load_conf-fails_iff : ((e : Error) × (load_conf unmarshal bytes ≡ failure e)) ↔ (
      ((e : Error) × (unmarshal bytes ≡ failure e))
      ⊎ ((m : NetConf) × (unmarshal bytes ≡ success m) × IsReserved m.if0name))
  load_conf-fails_iff = (refused, fails)
