-- ===== src/Pod/Args.antt =====
-- What the loop of `cmdAdd` reads from `CNI_ARGS`.
use rit_k8s_rdma_sriov_cni.Base.{
  ◌≡◌, refl, sym, ap, ◌∙◌, String, ◌<>◌, Bool, true, false, false≢true, List, [], ◌∷◌, map, ◌=?◌,
  if◌then◌else◌, arith, eq_iff,
}
use rit_k8s_rdma_sriov_cni.Go.Strings.{split, join}
use rit_k8s_rdma_sriov_cni.Go.Strings.Pieces.{Free, AllFree, Free-append, split-join}
use rit_k8s_rdma_sriov_cni.Pod.{PodName, with_pair, with_pairs, pod_of_args}

-- `key=value`
abbrev pub pair_text : String × String → String
pair_text (key, value) = key <> "=" <> value

-- The text of the arguments
abbrev pub args_text : List (String × String) → String
args_text pairs = join (map pair_text pairs) ";"

-- The value that the key is given last, or else the old one
unfoldable pub latest : String → String → List (String × String) → String
latest key old [] = old
latest key old ((k, value) ∷ rest) = latest key (if k =? key then value else old) rest

-- No key and no value has a separator.
abbrev pub AllPlain : List (String × String) → Type 0
AllPlain [] = Unit
AllPlain ((key, value) ∷ rest) =
    ((Free b'=' key × Free b'=' value) × (Free b';' key × Free b';' value)) × AllPlain rest

pairs-AllFree :
    (pairs : List (String × String)) → AllPlain pairs → AllFree b';' (map pair_text pairs)
pairs-AllFree [] plain = tt
pairs-AllFree ((key, value) ∷ rest) ((_, (p, q)), plain) = (
  Free-append b';' key ("=" <> value) p (Free-append b';' "=" value (refl, tt) q),
  pairs-AllFree rest plain,
)

split_pair :
    (key value : String)
    → Free b'=' key
    → Free b'=' value
    → split b'=' (pair_text (key, value)) ≡ key ∷ value ∷ []
unfolding join
split_pair key value p q = split-join "=" key (value ∷ []) (p, (q, tt))

abbrev pod_at : String → String → PodName
pod_at name ns = record { name = name; ns = ns }

by_tests :
    (a b : Bool) (name ns value : String)
    → (a ≡ true → b ≡ false)
    → (if a
        then record { name = name; ns = value }
        else if b
        then record { name = value; ns = ns }
        else record { name = name; ns = ns })
      ≡ pod_at (if b then value else name) (if a then value else ns)
by_tests true true name ns value one = absurd (false≢true (sym (one refl)))
by_tests true false name ns value one = refl
by_tests false true name ns value one = refl
by_tests false false name ns value one = refl

not_name : (key : String) → (key =? "K8S_POD_NAMESPACE") ≡ true → (key =? "K8S_POD_NAME") ≡ false
not_name key is =
    let same : key ≡ "K8S_POD_NAMESPACE" = ground (arith, eq_iff key "K8S_POD_NAMESPACE") in
    ap (λ k. k =? "K8S_POD_NAME") same

with_pair_eq :
    (name ns key value : String)
    → with_pair (record { name = name; ns = ns }) (key ∷ value ∷ []) ≡ record {
      name = if key =? "K8S_POD_NAME" then value else name;
      ns = if key =? "K8S_POD_NAMESPACE" then value else ns;
    }
unfolding with_pair
with_pair_eq name ns key value =
    by_tests (key =? "K8S_POD_NAMESPACE") (key =? "K8S_POD_NAME") name ns value (not_name key)

with_pairs_eq :
    (pairs : List (String × String)) (name ns : String)
    → AllPlain pairs
    → with_pairs (record { name = name; ns = ns }) (map pair_text pairs)
      ≡ record { name = latest "K8S_POD_NAME" name pairs; ns = latest "K8S_POD_NAMESPACE" ns pairs }
unfolding with_pairs latest
with_pairs_eq [] name ns plain = refl
with_pairs_eq ((key, value) ∷ rest) name ns (((p, q), _), plain) =
    ap (λ l. with_pairs (with_pair (record { name = name; ns = ns }) l) (map pair_text rest))
      (split_pair key value p q)
    ∙ ap (λ pod. with_pairs pod (map pair_text rest)) (with_pair_eq name ns key value)
    ∙ with_pairs_eq rest _ _ plain

-- From arguments `key=value`, put together with `;`, whose keys and values have neither separator,
-- the pod's name and namespace are the values that `K8S_POD_NAME` and `K8S_POD_NAMESPACE` are given
-- last, and empty if they are not given.
pub pod_of_args-args_text :
    (pairs : List (String × String))
    → AllPlain pairs
    → pod_of_args (args_text pairs)
      ≡ record { name = latest "K8S_POD_NAME" "" pairs; ns = latest "K8S_POD_NAMESPACE" "" pairs }
unfolding pod_of_args join latest
pod_of_args-args_text [] plain = refl
pod_of_args-args_text ((key, value) ∷ rest) plain =
    ap (with_pairs (record { name = ""; ns = "" })) (
      split-join ";" (pair_text (key, value)) (map pair_text rest)
        (pairs-AllFree ((key, value) ∷ rest) plain))
    ∙ with_pairs_eq ((key, value) ∷ rest) "" "" plain
