-- ===== src/Device/Shared.antt =====
-- The PF that `getSharedPF` finds.
use Prim.Native.String.{len, slice}
use rit_k8s_rdma_sriov_cni.Base.{
  ◌≡◌, ◌≢◌, ◌<◌, ◌≤◌, ◌-◌, ltb, true, refl, sym, ap, ◌∙◌, subst, String, not, false≢true,
  Bool-cases, inl, inr, Option, none, some, List, [], ◌∷◌, ◌=?◌, arith, eq_iff, eq_refl,
  if◌then◌else◌,
}
use rit_k8s_rdma_sriov_cni.Go.{ok, wrapf, Tried, success, failure, Error, attempt, ◌orelse◌}
use rit_k8s_rdma_sriov_cni.Go.Laws.{
  by_parts_eq, if_true, if_false, orelse-ok_eq, attempt-success_eq,
}
use rit_k8s_rdma_sriov_cni.Host.{Files}
use rit_k8s_rdma_sriov_cni.Device.{
  other_name, or_no_files, or_empty, cut_name, found_pf, get_shared_pf, net_dir,
}

-- The name is the first one in the list that is not the PF's own.
pub data IsFirstOther (if_name : String) : List String → String → Type 0 where
  here :
      {name : String} {rest : List String}
      → name ≢ if_name
      → IsFirstOther if_name (name ∷ rest) name
  behind :
      {name own : String} {rest : List String}
      → own ≡ if_name
      → IsFirstOther if_name rest name
      → IsFirstOther if_name (own ∷ rest) name

other_name-IsFirstOther :
    (if_name : String) (files : List String) (name : String)
    → other_name if_name files ≡ some name
    → IsFirstOther if_name files name
unfolding other_name
other_name-IsFirstOther if_name [] name e = cc
other_name-IsFirstOther if_name (file ∷ rest) name e = elim (Bool-cases (file =? if_name)) [
  | inl own ↦ behind (ground (arith, eq_iff file if_name)) (
      other_name-IsFirstOther if_name rest name
        (sym (ap (λ b. if b then other_name if_name rest else some file) own) ∙ e))
  | inr other ↦
      let is : file ≡ name =
        cc (sym (ap (λ b. if b then other_name if_name rest else some file) other) ∙ e) in
      subst (IsFirstOther if_name (file ∷ rest)) is
        (here λ same. false≢true (sym other ∙ ap (λ n. n =? if_name) same ∙ eq_refl if_name))
]

cut_name-ok :
    {W : Type 0} (full if_name dir : String) (w u : W)
    → cut_name full if_name w ≡ (ok dir, u)
    → (len if_name ≤ len full) × (slice full 0 (len full - len if_name) ≡ dir) × (w ≡ u)
unfolding cut_name
cut_name-ok full if_name dir w u e = elim (Bool-cases (ltb (len full) (len if_name))) [
  | inl short ↦ cc (ap (λ r. r.0) (sym (if_true (ltb (len full) (len if_name)) _ _ w short) ∙ e))
  | inr long ↦
      let done = sym (if_false (ltb (len full) (len if_name)) _ _ w long) ∙ e in
      (ground (arith, long), cc (ap (λ r. r.0) done), ap (λ r. r.1) done)
]

-- A path that is long enough to be cut has been got.
evaluated :
    (if_name : String) (full : Tried Error String)
    → 0 < len if_name
    → len if_name ≤ len (or_empty full)
    → (path : String) × (full ≡ success path)
unfolding or_empty
evaluated if_name (success path) named long = (path, refl)
evaluated if_name (failure e) named long = absurd (omega (arith, named, long))

module _ {W : Type 0} (f : Files W) where
  found_pf-some :
      (o : Option String) (w : W) (pf : String) → (found_pf f o w).0 ≡ ok pf → o ≡ some pf
  unfolding found_pf
  found_pf-some none w pf e = cc
  found_pf-some (some file) w pf e = cc

  listed_names :
      (if_name pf : String) (r : Tried Error (List String))
      → other_name if_name (or_no_files r) ≡ some pf
      → (names : List String) × (r ≡ success names) × IsFirstOther if_name names pf
  unfolding or_no_files other_name
  listed_names if_name pf (success names) e =
      (names, refl, other_name-IsFirstOther if_name names pf e)
  listed_names if_name pf (failure x) e = cc

  -- What `getSharedPF` has read from `w` on: the link of the PF, the path that it leads to, and the
  -- names in the directory of that path, which is the path less as many letters at its end as the PF's
  -- name has. The first of them that is not the PF's own is `pf`.
  pub record IsBeside (if_name pf : String) (w : W) : Type 0 where
    pub path : String
    pub names : List String
    pub linked : W
    pub followed : W
    pub listed : W
    pub is_link : f.lstat (net_dir if_name) w ≡ (ok true, linked)
    pub leads : f.eval_symlinks (net_dir if_name) linked ≡ (ok path, followed)
    pub long_enough : len if_name ≤ len path
    pub lists : f.read_dir (slice path 0 (len path - len if_name)) followed ≡ (ok names, listed)
    pub first : IsFirstOther if_name names pf

  -- A `getSharedPF` of a name that is not empty, if it succeeds, has followed the link of the PF,
  -- and returns the first name in the directory that it leads to, less the PF's name, that is not the
  -- PF's own.
  pub get_shared_pf-IsBeside :
      (if_name pf : String) (w u : W)
      → 0 < len if_name
      → get_shared_pf f if_name w ≡ (ok pf, u)
      → IsBeside if_name pf w
  unfolding get_shared_pf
  get_shared_pf-IsBeside if_name pf w u named e =
      by_parts_eq
        (f.lstat (net_dir if_name)
          orelse wrapf "can't get the symbolic link of the device %q: %v" (if_name ∷ []))
        _ w e
        λ symlink w1 ran1 e1. elim (Bool-cases symlink) [
          | inl link ↦
              by_parts_eq (attempt (f.eval_symlinks (net_dir if_name))) _ w1
                (sym (if_false (not symlink) _ _ w1 (ap not link)) ∙ e1)
                λ full w2 ran2 e2.
                  by_parts_eq (cut_name (or_empty full) if_name) _ w2 e2 λ dir w3 cut e3.
                    by_parts_eq (attempt (f.read_dir dir)) _ w3 e3 λ listing w4 ran4 e4.
                      let (long, is_dir, same) =
                        cut_name-ok (or_empty full) if_name dir w2 w3 cut in
                      let (path, is_path) = evaluated if_name full named long in
                      let (names, is_names, first) = listed_names if_name pf listing (
                        found_pf-some (other_name if_name (or_no_files listing)) w4 pf
                          (ap (λ r. r.0) e4)) in
                      let leads =
                        attempt-success_eq {F = Error} (f.eval_symlinks (net_dir if_name)) w1
                          (ran2 ∙ ap (λ t. (ok t, w2)) is_path) in
                      let lists =
                        attempt-success_eq {F = Error} (f.read_dir dir) w3
                          (ran4 ∙ ap (λ t. (ok t, w4)) is_names) in
                      record {
                        path = path;
                        names = names;
                        linked = w1;
                        followed = w2;
                        listed = w4;
                        is_link =
                            orelse-ok_eq (f.lstat (net_dir if_name)) _ w ran1
                            ∙ ap (λ b. (ok b, w1)) link;
                        leads = leads;
                        long_enough = subst (λ t. len if_name ≤ len (or_empty t)) is_path long;
                        lists =
                            subst
                              (λ x.
                                f.read_dir (slice path 0 (len path - len if_name)) x
                                ≡ (ok names, w4))
                              (sym same)
                              (subst (λ d. f.read_dir d w3 ≡ (ok names, w4))
                                (sym is_dir
                                  ∙ ap (λ t. slice (or_empty t) 0 (len (or_empty t) - len if_name))
                                      is_path)
                                lists);
                        first = first;
                      }
          | inr plain ↦ cc (ap (λ r. r.0) (sym (if_true (not symlink) _ _ w1 (ap not plain)) ∙ e1))
        ]
