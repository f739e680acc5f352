-- ===== src/Go/Strings/Pieces.antt =====
-- `split` after `join`.
use Prim.Native.Char.{Char, code}
use Prim.Native.String.append
use rit_k8s_rdma_sriov_cni.Base.{
  ℕ, ◌≡◌, refl, sym, ap, ◌∙◌, subst, arith, String, ◌<>◌, true, false, List, [], ◌∷◌, ◌==◌,
}
use rit_k8s_rdma_sriov_cni.Go.Strings.{split, onto_first, join}

-- The separator is not in the text.
abbrev pub Free : ℕ → String → Type 0
Free sep String.[] = Unit
Free sep (String.◌∷◌ c s) = ((code c == sep) ≡ false) × Free sep s

abbrev pub AllFree : ℕ → List String → Type 0
AllFree sep [] = Unit
AllFree sep (s ∷ rest) = Free sep s × AllFree sep rest

pub Free-append : (sep : ℕ) (s t : String) → Free sep s → Free sep t → Free sep (s <> t)
Free-append sep String.[] t p q = subst (Free sep) (sym (append.nil t)) q
Free-append sep (String.◌∷◌ c s) t (other, p) q =
    subst (Free sep) (sym (append.cons c s t)) (other, Free-append sep s t p q)

pub split_piece : (sep : ℕ) (s : String) → Free sep s → split sep s ≡ s ∷ []
unfolding split onto_first
split_piece sep String.[] p = refl
split_piece sep (String.◌∷◌ c s) (other, p) = rw (other, split_piece sep s p) refl

same_number : (n : ℕ) → (n == n) ≡ true
same_number n = ground arith

-- The separator `c` ends the first piece.
pub split-append :
    (c : Char) (s t : String)
    → Free (code c) s
    → split (code c) (s <> String.◌∷◌ c t) ≡ s ∷ split (code c) t
unfolding split onto_first
split-append c String.[] t p =
    ap (split (code c)) (append.nil (String.◌∷◌ c t)) ∙ rw (same_number (code c)) refl
split-append c (String.◌∷◌ d s) t (other, p) =
    ap (split (code c)) (append.cons d s (String.◌∷◌ c t)) ∙ rw (other, split-append c s t p) refl

join_step :
    (c : Char) (s t : String) (rest : List String)
    → join (s ∷ t ∷ rest) (String.◌∷◌ c String.[])
      ≡ s <> String.◌∷◌ c (join (t ∷ rest) (String.◌∷◌ c String.[]))
unfolding join
join_step c s t rest =
    let later = join (t ∷ rest) (String.◌∷◌ c String.[]) in
    ap (λ x. s <> x) (append.cons c String.[] later ∙ ap (λ x. String.◌∷◌ c x) (append.nil later))

-- Pieces without the separator come back.
pub split-join :
    (c : Char) (s : String) (rest : List String)
    → AllFree (code c) (s ∷ rest)
    → split (code c) (join (s ∷ rest) (String.◌∷◌ c String.[])) ≡ s ∷ rest
unfolding join
split-join c s [] (p, _) = split_piece (code c) s p
split-join c s (t ∷ rest) (p, q) =
    ap (split (code c)) (join_step c s t rest)
    ∙ split-append c s (join (t ∷ rest) (String.◌∷◌ c String.[])) p
    ∙ ap (λ l. s ∷ l) (split-join c t rest q)
