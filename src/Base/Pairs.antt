-- ===== src/Base/Pairs.antt =====
-- Lists whose elements are related one by one.
use mathlib.Core.Path.{sym, subst}
use mathlib.Core.List.{List, [], ◌∷◌, map, Memᴰ, Permᴰ, Perm, Forall₂}
use mathlib.Core.List.Perm
use mathlib.Core.List.Memᴰ

-- A relation on the elements of two lists goes with a permutation of the first.
pub permuted :
    {A B : Type 0} {R : A → B → Type 0} {xs xs' : List A} {ys : List B}
    → Permᴰ xs xs'
    → Forall₂ R xs ys
    → (ys' : List B) × Forall₂ R xs' ys' × Perm ys ys'
permuted Permᴰ.nil Forall₂.nil = ([], Forall₂.nil, Perm.refl [])
permuted {R = R} (Permᴰ.cons e d) (Forall₂.cons {b = y} p ps) =
    let (ys', qs, same) = permuted d ps in
    (y ∷ ys', Forall₂.cons (subst (λ x. R x y) e p) qs, Perm.cons y same)
permuted {R = R} (Permᴰ.swap e f) (Forall₂.cons {b = y} p (Forall₂.cons {b = z} {l₂ = ys} q ps)) = (
  z ∷ y ∷ ys,
  Forall₂.cons (subst (λ x. R x z) f q) (Forall₂.cons (subst (λ x. R x y) e p) ps),
  Perm.swap z y ys,
)
permuted (Permᴰ.trans d d') ps =
    let (ys', qs, same) = permuted d ps in
    let (ys'', rs, same') = permuted d' qs in (ys'', rs, Perm.trans same same')

pub unmapped :
    {A B C : Type 0} {R : B → C → Type 0} (f : A → B) (xs : List A) {ys : List C}
    → Forall₂ R (map f xs) ys
    → Forall₂ (λ x y. R (f x) y) xs ys
unmapped f [] Forall₂.nil = Forall₂.nil
unmapped f (x ∷ xs) (Forall₂.cons p ps) = Forall₂.cons p (unmapped f xs ps)

pub looked_up :
    {A B : Type 0} {R : A → B → Type 0} {xs : List A} {ys : List B} {y : B}
    → Forall₂ R xs ys
    → Memᴰ y ys
    → (x : A) × R x y
looked_up Forall₂.nil m = absurd (Memᴰ.not-nil m)
looked_up {R = R} (Forall₂.cons {a = x} p ps) (Memᴰ.head e) = (x, subst (R x) (sym e) p)
looked_up (Forall₂.cons p ps) (Memᴰ.tail m) = looked_up ps m

pub mapped :
    {A B : Type 0} {R S : A → B → Type 0} {xs : List A} {ys : List B}
    → ((x : A) (y : B) → R x y → S x y)
    → Forall₂ R xs ys
    → Forall₂ S xs ys
mapped f Forall₂.nil = Forall₂.nil
mapped f (Forall₂.cons {a = x} {b = y} p ps) = Forall₂.cons (f x y p) (mapped f ps)
