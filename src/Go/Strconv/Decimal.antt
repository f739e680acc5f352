-- ===== src/Go/Strconv/Decimal.antt =====
-- `parse_int` after `itoa`.
use Prim.Native.Char.{Char, code}
use Prim.Native.String.append
use rit_k8s_rdma_sriov_cni.Base.{
  ℕ, zero, suc, ◌+◌, ◌*◌, ◌/◌, ◌%◌, ◌^◌, ◌≤◌, ◌<◌, ◌≡◌, refl, sym, ap, ◌∙◌, subst, String, ◌<>◌,
  some, arith, ltb, leb, true, ◌==◌, ltb→lt, false, if◌then◌else◌, Bool-cases, inl, inr,
}
use rit_k8s_rdma_sriov_cni.Go.Strconv.{
  pos, digit, emit, itoa, digits_value, unsigned, in_range, positive, parse_int,
}

-- The digit's character
digit-code : (d : ℕ) → d < 10 → (c : Char) × (digit d ≡ String.◌∷◌ c String.[]) × (code c ≡ 48 + d)
unfolding digit
digit-code zero h = ("0", refl, refl)
digit-code (suc zero) h = ("1", refl, refl)
digit-code (suc (suc zero)) h = ("2", refl, refl)
digit-code (suc (suc (suc zero))) h = ("3", refl, refl)
digit-code (suc (suc (suc (suc zero)))) h = ("4", refl, refl)
digit-code (suc (suc (suc (suc (suc zero))))) h = ("5", refl, refl)
digit-code (suc (suc (suc (suc (suc (suc zero)))))) h = ("6", refl, refl)
digit-code (suc (suc (suc (suc (suc (suc (suc zero))))))) h = ("7", refl, refl)
digit-code (suc (suc (suc (suc (suc (suc (suc (suc zero)))))))) h = ("8", refl, refl)
digit-code (suc (suc (suc (suc (suc (suc (suc (suc (suc zero))))))))) h = ("9", refl, refl)
digit-code (suc (suc (suc (suc (suc (suc (suc (suc (suc (suc d)))))))))) h = absurd (omega arith)

digits_value_step :
    (c : Char) (s : String) (acc d : ℕ)
    → d < 10
    → code c ≡ 48 + d
    → digits_value acc (String.◌∷◌ c s) ≡ digits_value (acc * 10 + d) s
unfolding digits_value
digits_value_step c s acc d h is = ground arith

digit-before :
    (d : ℕ) (s : String) → d < 10 → (c : Char) × (digit d <> s ≡ String.◌∷◌ c s) × (code c ≡ 48 + d)
digit-before d s h =
    let (c, text, is) = digit-code d h in
    (
      c,
      ap (λ t. t <> s) text ∙ append.cons c String.[] s ∙ ap (λ t. String.◌∷◌ c t) (append.nil s),
      is,
    )

digits_value-digit :
    (acc d : ℕ) (s : String)
    → d < 10
    → digits_value acc (digit d <> s) ≡ digits_value (acc * 10 + d) s
digits_value-digit acc d s h =
    let (c, text, is) = digit-before d s h in
    ap (digits_value acc) text ∙ digits_value_step c s acc d h is

-- A text begins with a digit, and stands for the number if all its digits are read.
abbrev Reads : String → ℕ → String → Type 0
Reads text n rest =
    (c : Char) × (t : String) × (text ≡ String.◌∷◌ c t)
    × (48 ≤ code c)
    × (digits_value 0 (String.◌∷◌ c t) ≡ digits_value n rest)

digit-Reads : (n : ℕ) (s : String) → n < 10 → Reads (digit n <> s) n s
digit-Reads n s h =
    let (c, text, is) = digit-before n s h in
    (
      c,
      s,
      text,
      omega (arith, is),
      digits_value_step c s 0 n h is ∙ ap (λ m. digits_value m s) (omega arith),
    )

ltb-ge : (a b : ℕ) → ltb a b ≡ false → b ≤ a
ltb-ge a b h = ground arith

emit-Reads : (fuel n : ℕ) (s : String) → n ≤ fuel → Reads (emit fuel n s) n s
unfolding emit
emit-Reads zero n s h =
    subst (λ m. Reads (digit (n % 10) <> s) m s) (omega arith)
      (digit-Reads (n % 10) s (omega arith))
emit-Reads (suc fuel) n s h = elim (Bool-cases (ltb n 10)) [
  | inl small ↦
      subst (λ t. Reads t n s)
        (sym (ap (λ b. if b then digit n <> s else emit fuel (n / 10) (digit (n % 10) <> s)) small))
        (digit-Reads n s (ltb→lt n 10 small))
  | inr large ↦
      let (c, t, text, is, value) =
        emit-Reads fuel (n / 10) (digit (n % 10) <> s) (omega (arith, ltb-ge n 10 large)) in
      subst (λ t. Reads t n s)
        (sym (ap (λ b. if b then digit n <> s else emit fuel (n / 10) (digit (n % 10) <> s)) large))
        (
          c,
          t,
          text,
          is,
          value
              ∙ digits_value-digit (n / 10) (n % 10) s (omega arith)
              ∙ ap (λ m. digits_value m s) (omega arith),
        )
]

is_not : (a b : ℕ) → b < a → (a == b) ≡ false
is_not a b h = ground arith

fits : (n : ℕ) → n ≤ 9223372036854775807 → leb n 9223372036854775807 ≡ true
fits n h = ground arith

parse_int-digits :
    (c : Char) (t : String) (n : ℕ)
    → 48 ≤ code c
    → digits_value 0 (String.◌∷◌ c t) ≡ some n
    → n < 2 ^ 63
    → parse_int (String.◌∷◌ c t) ≡ some (pos n)
unfolding parse_int unsigned in_range positive
parse_int-digits c t n is value h =
    rw
      (
        is_not (code c) b'-' (omega arith),
        is_not (code c) b'+' (omega arith),
        value,
        fits n (omega arith),
      )
      refl

-- Every number below 2^63 is read back from its decimal digits.
pub parse_int-itoa : (n : ℕ) → n < 2 ^ 63 → parse_int (itoa n) ≡ some (pos n)
unfolding itoa digits_value
parse_int-itoa n h =
    let (c, t, text, is, value) = emit-Reads n n "" (omega arith) in
    ap parse_int text ∙ parse_int-digits c t n is value h
