-- ===== src/Go/Strings.antt =====
-- What the program uses of Go's package strings.
pub mod Pieces
use Prim.Native.Char.{Char, code}
use rit_k8s_rdma_sriov_cni.Base.{
  ℕ, ◌≡◌, refl, String, ◌<>◌, Bool, ◌&&◌, ◌||◌, List, [], ◌∷◌, ◌==◌, leb, if◌then◌else◌,
}

-- `unicode.IsSpace`
is_space : ℕ → Bool
is_space c =
    (leb 9 c && leb c 13)
    || c == 32
    || c == 0x85
    || c == 0xa0
    || c == 0x1680
    || (leb 0x2000 c && leb c 0x200a)
    || c == 0x2028
    || c == 0x2029
    || c == 0x202f
    || c == 0x205f
    || c == 0x3000

trim_left : String → String
trim_left String.[] = String.[]
trim_left (String.◌∷◌ c s) =
    let rest = trim_left s in if is_space (code c) then rest else String.◌∷◌ c s

-- One character in front of a text without trailing space.
push_trimmed : Char → String → String
push_trimmed c String.[] = if is_space (code c) then String.[] else String.◌∷◌ c String.[]
push_trimmed c s = String.◌∷◌ c s

trim_right : String → String
trim_right String.[] = String.[]
trim_right (String.◌∷◌ c s) = push_trimmed c (trim_right s)

-- `strings.TrimSpace`
unfoldable pub trim_space : String → String
unfolding trim_left trim_right push_trimmed is_space
trim_space s = trim_right (trim_left s)

-- A character in front of the first piece.
unfoldable onto_first : Char → List String → List String
onto_first c [] = String.◌∷◌ c String.[] ∷ []
onto_first c (piece ∷ rest) = String.◌∷◌ c piece ∷ rest

-- `strings.Split` at a separator of one character
unfoldable pub split : ℕ → String → List String
unfolding onto_first
split sep String.[] = "" ∷ []
split sep (String.◌∷◌ c s) =
    let rest = split sep s in if code c == sep then "" ∷ rest else onto_first c rest

-- `strings.Join`
unfoldable pub join : List String → String → String
join [] sep = ""
join (s ∷ []) sep = s
join (s ∷ t ∷ rest) sep = s <> sep <> join (t ∷ rest) sep

trim_numvfs : trim_space " 8\n" ≡ "8"
unfolding trim_space
trim_numvfs = refl

split_args : split b';' "a=b;c" ≡ "a=b" ∷ "c" ∷ []
unfolding split
split_args = refl
