-- ===== src/Go/FilePath.antt =====
-- What the program uses of Go's package filepath: `Join`, on a system with `/` as its separator.
use Prim.Native.Char.{code}
use rit_k8s_rdma_sriov_cni.Base.{
  ◌≡◌, refl, String, ◌<>◌, Bool, false, ◌||◌, List, [], ◌∷◌, reverse, ◌==◌, ◌=?◌, if◌then◌else◌,
}
use rit_k8s_rdma_sriov_cni.Go.Strings.{split, join}

is_rooted : String → Bool
is_rooted String.[] = false
is_rooted (String.◌∷◌ c s) = code c == b'/'

-- A `..` drops the element before it; at the root of a rooted path it stands for nothing.
step_up : Bool → List String → List String
step_up rooted [] = if rooted then [] else ".." ∷ []
step_up rooted (top ∷ below) = if top =? ".." then ".." ∷ top ∷ below else below

-- The elements of the cleaned path, the last one first.
walk : Bool → List String → List String → List String
walk rooted done [] = done
walk rooted done (e ∷ rest) =
    walk rooted
      (if (e =? "") || (e =? ".")
        then done
        else if e =? ".."
        then step_up rooted done
        else e ∷ done)
      rest

-- `filepath.Clean`
clean : String → String
clean path =
    let rooted = is_rooted path in
    let body = join (reverse (walk rooted [] (split b'/' path))) "/" in
    let full = (if rooted then "/" else "") <> body in if full =? "" then "." else full

-- `filepath.Join` of two elements
unfoldable pub join_path : String → String → String
unfolding clean walk step_up is_rooted split join
join_path dir name =
    if dir =? "" then (if name =? "" then "" else clean name) else clean (dir <> "/" <> name)

join_path_tests :
    (join_path "/var/lib/cni/sriov" "c-eth0" ≡ "/var/lib/cni/sriov/c-eth0")
    × (join_path "/a/" "../b" ≡ "/b")
unfolding join_path
join_path_tests = (refl, refl)
