-- ===== src/Net.antt =====
-- What the program uses of Go's package net: addresses as byte slices, `IP.Equal`, `IPNet.Contains`.
use Prim.Native.Nat.{bit_and}
use rit_k8s_rdma_sriov_cni.Base.{
  ℕ, ◌≡◌, refl, Bool, true, false, ◌&&◌, Option, none, some, List, [], ◌∷◌, ◌++◌, length, drop,
  ◌==◌, if◌then◌else◌,
}

-- `net.IP` is a byte slice; `none` is nil.
abbrev pub Ip : Type 0
Ip = Option (List ℕ)

-- `net.IPNet`; only the length and the bytes of the mask are looked at, so a nil mask is `[]`.
pub record IpNet : Type 0 where
  pub ip : Ip
  pub mask : List ℕ

abbrev pub bytes_of : Ip → List ℕ
bytes_of none = []
bytes_of (some b) = b

abbrev v4_in_v6_prefix : List ℕ
v4_in_v6_prefix = 0 ∷ 0 ∷ 0 ∷ 0 ∷ 0 ∷ 0 ∷ 0 ∷ 0 ∷ 0 ∷ 0 ∷ 0xff ∷ 0xff ∷ []

strip_prefix : List ℕ → List ℕ → Option (List ℕ)
strip_prefix [] b = some b
strip_prefix (p ∷ ps) [] = none
strip_prefix (p ∷ ps) (b ∷ bs) = let rest = strip_prefix ps bs in if p == b then rest else none

-- `IP.To4`
unfoldable pub to4 : List ℕ → Option (List ℕ)
unfolding strip_prefix
to4 b =
    if length b == 4
    then some b
    else if length b == 16
    then strip_prefix v4_in_v6_prefix b
    else none

unfoldable pub bytes_equal : List ℕ → List ℕ → Bool
bytes_equal [] [] = true
bytes_equal [] (b ∷ bs) = false
bytes_equal (a ∷ as') [] = false
bytes_equal (a ∷ as') (b ∷ bs) = (a == b) && bytes_equal as' bs

equal_v4_v6 : List ℕ → Option (List ℕ) → Bool
equal_v4_v6 a none = false
equal_v4_v6 a (some b) = bytes_equal a b

-- `IP.Equal`: an IPv4 address equals its IPv6 form.
unfoldable pub ip_equal : Ip → Ip → Bool
unfolding bytes_equal strip_prefix equal_v4_v6
ip_equal ip x =
    let a = bytes_of ip in
    let b = bytes_of x in
    if length a == length b
    then bytes_equal a b
    else if (length a == 4) && (length b == 16)
    then equal_v4_v6 a (strip_prefix v4_in_v6_prefix b)
    else if (length a == 16) && (length b == 4)
    then equal_v4_v6 b (strip_prefix v4_in_v6_prefix a)
    else false

-- The mask for a network number of the length of `ip`; `none` where they do not go together.
mask_for : List ℕ → List ℕ → Option (List ℕ)
mask_for ip mask =
    if length mask == 4
    then (if length ip == 4 then some mask else none)
    else if length mask == 16
    then some (if length ip == 4 then drop 12 mask else mask)
    else none

with_mask : List ℕ → Option (List ℕ) → List ℕ × List ℕ
with_mask ip none = ([], [])
with_mask ip (some m) = (ip, m)

v4_or_v6 : List ℕ → Option (List ℕ) → Option (List ℕ)
v4_or_v6 ip (some v4) = some v4
v4_or_v6 ip none = if length ip == 16 then some ip else none

number_and_mask : Option (List ℕ) → List ℕ → List ℕ × List ℕ
number_and_mask none mask = ([], [])
number_and_mask (some ip) mask = with_mask ip (mask_for ip mask)

-- `networkNumberAndMask`; nil is `[]`.
unfoldable pub network_number_and_mask : IpNet → List ℕ × List ℕ
unfolding to4 mask_for with_mask v4_or_v6 number_and_mask
network_number_and_mask n = number_and_mask (v4_or_v6 (bytes_of n.ip) (to4 (bytes_of n.ip))) n.mask

-- The loop of `IPNet.Contains`, over slices of one length.
unfoldable pub masked_equal : List ℕ → List ℕ → List ℕ → Bool
masked_equal (a ∷ as') (m ∷ ms) (b ∷ bs) = (bit_and a m == bit_and b m) && masked_equal as' ms bs
masked_equal _ _ _ = true

or_else_bytes : List ℕ → Option (List ℕ) → List ℕ
or_else_bytes b none = b
or_else_bytes b (some v4) = v4

-- `IPNet.Contains`
unfoldable pub contains : IpNet → Ip → Bool
unfolding network_number_and_mask or_else_bytes masked_equal
contains n ip =
    let (nn, m) = network_number_and_mask n in
    let x = or_else_bytes (bytes_of ip) (to4 (bytes_of ip)) in
    if length x == length nn then masked_equal nn m x else false

abbrev lan : IpNet
lan = record { ip = some (192 ∷ 168 ∷ 1 ∷ 0 ∷ []); mask = 255 ∷ 255 ∷ 255 ∷ 0 ∷ [] }

contains_tests :
    (contains lan (some (192 ∷ 168 ∷ 1 ∷ 77 ∷ [])) ≡ true)
    × (contains lan (some (v4_in_v6_prefix ++ (192 ∷ 168 ∷ 1 ∷ 77 ∷ []))) ≡ true)
    × (contains lan (some (192 ∷ 168 ∷ 2 ∷ 77 ∷ [])) ≡ false)
    × (ip_equal (some (10 ∷ 0 ∷ 0 ∷ 1 ∷ [])) (some (v4_in_v6_prefix ++ (10 ∷ 0 ∷ 0 ∷ 1 ∷ [])))
        ≡ true)
unfolding contains ip_equal
contains_tests = (refl, refl, refl, refl)
