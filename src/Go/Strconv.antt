-- ===== src/Go/Strconv.antt =====
-- Numbers to and from text: `%d` of a number that is not negative, and package strconv.
pub mod Decimal
pub mod Bounds
use Prim.Native.Char.{code}
use rit_k8s_rdma_sriov_cni.Base.{
  ℕ, zero, suc, ◌+◌, ◌-◌, ◌*◌, ◌/◌, ◌%◌, ◌^◌, ◌≡◌, refl, String, ◌<>◌, ◌&&◌, Option, none, some,
  ltb, leb, ◌==◌, if◌then◌else◌,
}

-- `int`; `negsuc n` is -(n + 1).
pub data ℤ : Type 0 where
  pos : ℕ → ℤ
  negsuc : ℕ → ℤ

unfoldable digit : ℕ → String
digit d =
    if d == 0
    then "0"
    else if d == 1
    then "1"
    else if d == 2
    then "2"
    else if d == 3
    then "3"
    else if d == 4
    then "4"
    else if d == 5
    then "5"
    else if d == 6
    then "6"
    else if d == 7
    then "7"
    else if d == 8
    then "8"
    else "9"

-- With as much fuel as the number the digits do not run out.
unfoldable emit : ℕ → ℕ → String → String
emit zero n out = digit (n % 10) <> out
emit (suc fuel) n out =
    let rest = emit fuel (n / 10) (digit (n % 10) <> out) in
    if ltb n 10 then digit n <> out else rest

-- `fmt.Sprintf("%d", n)`
unfoldable pub itoa : ℕ → String
unfolding emit digit
itoa n = emit n n ""

unfoldable digits_value : ℕ → String → Option ℕ
digits_value n String.[] = some n
digits_value n (String.◌∷◌ c s) =
    let rest = digits_value (n * 10 + (code c - 48)) s in
    if leb 48 (code c) && leb (code c) 57 then rest else none

-- The digits behind the sign; there is at least one.
unfoldable unsigned : String → Option ℕ
unsigned String.[] = none
unsigned (String.◌∷◌ c s) = digits_value 0 (String.◌∷◌ c s)

-- The range of a 64-bit `int`.
unfoldable in_range : ℕ → Option ℕ → Option ℕ
in_range limit none = none
in_range limit (some n) = if leb n limit then some n else none

unfoldable positive : Option ℕ → Option ℤ
positive none = none
positive (some n) = some (pos n)

unfoldable negative : Option ℕ → Option ℤ
negative none = none
negative (some zero) = some (pos 0)
negative (some (suc n)) = some (negsuc n)

-- `strconv.ParseInt(s, 10, 0)`, which is what `strconv.Atoi` returns; `none` is an error.
unfoldable pub parse_int : String → Option ℤ
unfolding digits_value unsigned in_range positive negative
parse_int String.[] = none
parse_int (String.◌∷◌ c s) =
    if code c == b'-'
    then negative (in_range (2 ^ 63) (unsigned s))
    else if code c == b'+'
    then positive (in_range (2 ^ 63 - 1) (unsigned s))
    else positive (in_range (2 ^ 63 - 1) (unsigned (String.◌∷◌ c s)))

itoa_tests : (itoa 0 ≡ "0") × (itoa 407 ≡ "407")
unfolding itoa
itoa_tests = (refl, refl)

parse_int_tests :
    (parse_int "8" ≡ some (pos 8))
    × (parse_int "-1" ≡ some (negsuc 0))
    × (parse_int "eth" ≡ none)
    × (parse_int "9223372036854775808" ≡ none)
unfolding parse_int
parse_int_tests = (refl, refl, refl, refl)
