-- ===== src/Tests/Looking.antt =====
-- What the calls of the host on which the VF's device moves do, one by one.
use rit_k8s_rdma_sriov_cni.Base.{
  ℕ, zero, suc, ◌≤◌, Bool, true, false, Bool-cases, false≢true, inl, inr, String, List, [], ◌∷◌,
  ◌≡◌, ◌≢◌, refl, sym, ap, ◌∙◌, ◌==◌, ◌=?◌, ◌&&◌, if◌then◌else◌, arith, eq_iff, Option, none, some,
}
use rit_k8s_rdma_sriov_cni.Go.{Error, ok, err, exit, panic, Outcome, Run, pure, fail}
use rit_k8s_rdma_sriov_cni.Host.{Link, Ns}
use rit_k8s_rdma_sriov_cni.Network.{IsQuiet}
use rit_k8s_rdma_sriov_cni.Tests.Machine.{World, in_goroutine, or_missing}
use rit_k8s_rdma_sriov_cni.Tests.Mover.{
  called, index_of, looked_up, moved, named, put, shown, space, stored, vf_at, view, where_is,
}

shown-ne : (name : String) → shown name ≢ "enp1s0"
unfolding shown
shown-ne name e =
    ground (arith, eq_iff name "enp1s0", eq_iff "" "enp1s0", eq_iff (shown name) "enp1s0")

shown-other :
    (name : String) → (if name =? "enp1s0" then false else true) ≡ true → shown name ≡ name
unfolding shown
shown-other name e = elim (Bool-cases (name =? "enp1s0")) [
  | inl is ↦ absurd (false≢true (sym (ap (λ b. if b then false else true) is) ∙ e))
  | inr ne ↦ rw ne refl
]

shown-shown : (name : String) → shown (shown name) ≡ shown name
unfolding shown
shown-shown name = elim (Bool-cases (name =? "enp1s0")) [
  | inl is ↦ rw is refl
  | inr ne ↦ rw (ne, ne) refl
]

stored-ne : (devices : List (String × ℕ)) → (stored devices).0 ≢ "enp1s0"
unfolding stored
stored-ne [] e = ground (arith, eq_iff "" "enp1s0")
stored-ne ((name, ns) ∷ rest) e = shown-ne name e

pub shown-stored : (devices : List (String × ℕ)) → shown (stored devices).0 ≡ (stored devices).0
unfolding stored
shown-stored [] = refl
shown-stored ((name, ns) ∷ rest) = shown-shown name

space-bound : (ns : Ns) → space ns ≤ 1
unfolding space
space-bound zero = omega arith
space-bound (suc ns) = omega arith

pub view_unique :
    (w : World) (i j : ℕ) → where_is w i ≡ where_is w j → called w i ≡ called w j → i ≡ j
unfolding where_is called space
view_unique w zero zero p q = refl
view_unique w zero (suc zero) p q = absurd (stored-ne w.devices q)
view_unique w zero (suc (suc k)) p q = absurd (omega (arith, p, space-bound (vf_at w).1))
view_unique w (suc zero) zero p q = absurd (stored-ne w.devices (sym q))
view_unique w (suc zero) (suc zero) p q = refl
view_unique w (suc zero) (suc (suc k)) p q = absurd (omega (arith, p))
view_unique w (suc (suc k)) zero p q = absurd (omega (arith, p, space-bound (vf_at w).1))
view_unique w (suc (suc k)) (suc zero) p q = absurd (omega (arith, p))
view_unique w (suc (suc k)) (suc (suc l)) p q = p

-- A test with an error for the other case was passed.
passed_test :
    {A : Type 0} (b : Bool) (e : Error) (y : World) {a c : A} {x u : World}
    → (if b then pure a x else fail e y) ≡ (ok c, u)
    → (b ≡ true) × (a ≡ c) × (x ≡ u)
passed_test true e y p = (refl, cc (ap (λ r. r.0) p), ap (λ r. r.1) p)
passed_test false e y p = cc (ap (λ r. r.0) p)

if_on : {A : Type 0} (b : Bool) {x : A} (y : A) → b ≡ true → (if b then x else y) ≡ x
if_on b {x} y e = ap (λ c. if c then x else y) e

if_off : {A : Type 0} (b : Bool) (x : A) {y : A} → b ≡ false → (if b then x else y) ≡ y
if_off b x {y} e = ap (λ c. if c then x else y) e

both : (a b : Bool) → (a && b) ≡ true → (a ≡ true) × (b ≡ true)
both true b e = (refl, e)
both false b e = cc

same_text : (s t : String) → (s =? t) ≡ true → s ≡ t
same_text s t e = ground (arith, eq_iff s t)

same_number : (m n : ℕ) → (m == n) ≡ true → m ≡ n
same_number m n e = ground arith

pub index_of-vf : (id : ℕ) → index_of id ≡ 9 → id ≡ 0
unfolding index_of
index_of-vf zero e = refl
index_of-vf (suc k) e = absurd (omega (arith, e))

looked_up-IsQuiet : (name : String) → IsQuiet view (looked_up name)
unfolding looked_up
looked_up-IsQuiet name = record {
  same = λ w. elim (Bool-cases ((name =? "enp1s0") && (space w.current_ns == 0))) [
    | inl pf ↦ rw pf (refl, refl)
    | inr no_pf ↦
        elim (Bool-cases ((name =? (vf_at w).0) && (space w.current_ns == space (vf_at w).1))) [
          | inl vf ↦ rw (no_pf, vf) (refl, refl)
          | inr no_vf ↦ rw (no_pf, no_vf) (refl, refl)
        ]
  ];
}

-- Which device was looked up
pub looked_up-finds :
    (name : String) (l : Link) (w u : World)
    → looked_up name w ≡ (ok l, u)
    → (id : ℕ) × (index_of id ≡ l.index)
      × (where_is w id ≡ space w.current_ns)
      × (called w id ≡ name)
unfolding looked_up index_of where_is called
looked_up-finds name l w u e = elim (Bool-cases ((name =? "enp1s0") && (space w.current_ns == 0))) [
  | inl pf ↦
      let (is_pf, home) = both (name =? "enp1s0") (space w.current_ns == 0) pf in
      let found : record { index = 5 } ≡ l =
        cc (
          ap (λ r. r.0) (sym (if_on ((name =? "enp1s0") && (space w.current_ns == 0)) _ pf) ∙ e)) in
      (
        1,
        ap (λ k. k.index) found,
        sym (same_number (space w.current_ns) 0 home),
        sym (same_text name "enp1s0" is_pf),
      )
  | inr no_pf ↦
      let (vf, found, _) =
        passed_test ((name =? (vf_at w).0) && (space w.current_ns == space (vf_at w).1)) _ _
          {a = record { index = 9 }}
          (sym (if_off ((name =? "enp1s0") && (space w.current_ns == 0)) _ no_pf) ∙ e) in
      let (is_vf, here) = both (name =? (vf_at w).0) (space w.current_ns == space (vf_at w).1) vf in
      (
        0,
        ap (λ k. k.index) found,
        sym (same_number (space w.current_ns) (space (vf_at w).1) here),
        sym (same_text name (vf_at w).0 is_vf),
      )
]

pub named_how :
    (l : Link) (new : String) (w u : World)
    → named l new w ≡ (ok tt, u)
    → (l.index ≡ 9) × (shown new ≡ new) × (u ≡ put new (vf_at w).1 w)
unfolding named
named_how l new w u e =
    let (passes, _, changed) =
      passed_test ((l.index == 9) && (if new =? "enp1s0" then false else true)) _ _ e in
    let (vf, other) = both (l.index == 9) (if new =? "enp1s0" then false else true) passes in
    (same_number l.index 9 vf, shown-other new other, sym changed)

pub moved_how :
    (l : Link) (ns : Ns) (w u : World)
    → moved l ns w ≡ (ok tt, u)
    → (l.index ≡ 9) × (u ≡ put (vf_at w).0 ns w)
unfolding moved
moved_how l ns w u e =
    let (vf, _, changed) = passed_test (l.index == 9) _ _ e in
    (same_number l.index 9 vf, sym changed)

pub looked_up-back : (name : String) (w : World) → (looked_up name w).1 ≡ w
unfolding looked_up
looked_up-back name w = elim (Bool-cases ((name =? "enp1s0") && (space w.current_ns == 0))) [
  | inl pf ↦ rw pf refl
  | inr no_pf ↦
      elim (Bool-cases ((name =? (vf_at w).0) && (space w.current_ns == space (vf_at w).1))) [
        | inl vf ↦ rw (no_pf, vf) refl
        | inr no_vf ↦ rw (no_pf, no_vf) refl
      ]
]

pub or_missing-back : {A : Type 0} (o : Option A) (w : World) → (or_missing o w).1 ≡ w
unfolding or_missing
or_missing-back none w = refl
or_missing-back (some a) w = refl

-- A call that gives the world back is quiet.
pub back-IsQuiet : {E A : Type 0} {m : Run World E A} → ((w : World) → (m w).1 ≡ w) → IsQuiet view m
back-IsQuiet back = record { same = λ w. (ap view.devices (back w), ap view.current (back w)) }

pub in_goroutine-ok : (r : Outcome Error Unit) → in_goroutine r ≡ ok tt → r ≡ ok tt
unfolding in_goroutine
in_goroutine-ok (ok a) e = cc
in_goroutine-ok (err x) e = cc
in_goroutine-ok exit e = cc
in_goroutine-ok panic e = cc
