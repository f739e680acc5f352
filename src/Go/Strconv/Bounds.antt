-- ===== src/Go/Strconv/Bounds.antt =====
-- The range of what `parse_int` reads.
use Prim.Native.Char.{code}
use rit_k8s_rdma_sriov_cni.Base.{
  ℕ, zero, suc, ◌-◌, ◌^◌, ◌<◌, ◌≤◌, ◌≡◌, refl, subst, String, Option, none, some, arith, ◌==◌, true,
  false, Bool, if◌then◌else◌,
}
use rit_k8s_rdma_sriov_cni.Go.Strconv.{
  ℤ, pos, negsuc, unsigned, in_range, positive, negative, parse_int,
}

-- The numbers of a 64-bit `int`
abbrev pub IsInt64 : ℤ → Type 0
IsInt64 (pos n) = n < 2 ^ 63
IsInt64 (negsuc n) = n < 2 ^ 63

in_range-bound : (limit : ℕ) (o : Option ℕ) (n : ℕ) → in_range limit o ≡ some n → n ≤ limit
unfolding in_range
in_range-bound limit none n e = cc
in_range-bound limit (some m) n e = ground arith

positive-some : (o : Option ℕ) (z : ℤ) → positive o ≡ some z → (n : ℕ) × (o ≡ some n) × (pos n ≡ z)
unfolding positive
positive-some none z e = cc
positive-some (some n) z e = (n, refl, cc)

positive-IsInt64 : (o : Option ℕ) (z : ℤ) → positive (in_range (2 ^ 63 - 1) o) ≡ some z → IsInt64 z
positive-IsInt64 o z e =
    let (n, fits, is) = positive-some (in_range (2 ^ 63 - 1) o) z e in
    subst IsInt64 is (omega (arith, in_range-bound (2 ^ 63 - 1) o n fits))

negative-bound :
    (o : Option ℕ) (z : ℤ) → ((n : ℕ) → o ≡ some n → n ≤ 2 ^ 63) → negative o ≡ some z → IsInt64 z
unfolding negative
negative-bound none z small e = cc
negative-bound (some zero) z small e = let is : pos 0 ≡ z = cc in subst IsInt64 is (omega arith)
negative-bound (some (suc n)) z small e =
    let is : negsuc n ≡ z = cc in subst IsInt64 is (omega (arith, small (suc n) refl))

one_of :
    {A C : Type 0} (b : Bool) (x y : A) {z : A}
    → (if b then x else y) ≡ z
    → (x ≡ z → C)
    → (y ≡ z → C)
    → C
one_of true x y e f g = f e
one_of false x y e f g = g e

-- A number that is read fits a 64-bit `int`.
pub parse_int-IsInt64 : (s : String) (z : ℤ) → parse_int s ≡ some z → IsInt64 z
unfolding parse_int
parse_int-IsInt64 String.[] z e = cc
parse_int-IsInt64 (String.◌∷◌ c s) z e =
    one_of (code c == b'-') (negative (in_range (2 ^ 63) (unsigned s))) _ e
      (negative-bound (in_range (2 ^ 63) (unsigned s)) z (in_range-bound (2 ^ 63) (unsigned s)))
      λ e'.
        one_of (code c == b'+') (positive (in_range (2 ^ 63 - 1) (unsigned s)))
          (positive (in_range (2 ^ 63 - 1) (unsigned (String.◌∷◌ c s)))) e'
          (positive-IsInt64 (unsigned s) z) (positive-IsInt64 (unsigned (String.◌∷◌ c s)) z)
