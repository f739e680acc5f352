-- ===== src/Go/Laws/Deferred.antt =====
-- Deferred calls, and calls that keep a predicate of the host.
use rit_k8s_rdma_sriov_cni.Base.{subst, ◌≡◌, ap, ◌∙◌}
use rit_k8s_rdma_sriov_cni.Go.{
  Outcome, ok, err, exit, panic, Run, continue, ◌>>=◌, Error, deferring, after, run_deferred,
}

module _ {E A : Type 0} where
  after-ok : (r : Outcome E A) (q : Outcome Error Unit) {a : A} → after r q ≡ ok a → r ≡ ok a
  after-ok r (ok x) e = e
  after-ok r (err x) e = e
  after-ok r exit e = cc
  after-ok r panic e = cc

module _ {W E A : Type 0} where
  pub deferring_eq :
      (d : Run W Error Unit) (m : Run W E A) (w : W) {a : A} {u v : W}
      → m w ≡ (ok a, u)
      → d u ≡ (ok tt, v)
      → deferring d m w ≡ (ok a, v)
  deferring_eq d m w {a} ran cleaned =
      ap (λ r. run_deferred r.0 d r.1) ran ∙ ap (λ r. (after (ok a) r.0, r.1)) cleaned

  run_deferred-ok :
      (r : Outcome E A) (d : Run W Error Unit) (w : W) {a : A}
      → (run_deferred r d w).0 ≡ ok a
      → r ≡ ok a
  run_deferred-ok (ok x) d w e = after-ok (ok x) (d w).0 e
  run_deferred-ok (err x) d w e = after-ok (err x) (d w).0 e
  run_deferred-ok exit d w e = e
  run_deferred-ok panic d w e = after-ok panic (d w).0 e

  -- A function that returned a value with a deferred call returned it without that call.
  pub deferring-ok :
      (d : Run W Error Unit) (m : Run W E A) (w : W) {a : A}
      → (deferring d m w).0 ≡ ok a
      → (m w).0 ≡ ok a
  deferring-ok d m w e = run_deferred-ok (m w).0 d (m w).1 e

  run_deferred-ok_eq :
      (r : Outcome E A) (d : Run W Error Unit) (w : W) {a : A} {v : W}
      → run_deferred r d w ≡ (ok a, v)
      → (r ≡ ok a) × ((d w).1 ≡ v)
  run_deferred-ok_eq (ok x) d w e = (run_deferred-ok (ok x) d w (ap (λ r. r.0) e), ap (λ r. r.1) e)
  run_deferred-ok_eq (err x) d w e =
      (run_deferred-ok (err x) d w (ap (λ r. r.0) e), ap (λ r. r.1) e)
  run_deferred-ok_eq exit d w e = cc (ap (λ r. r.0) e)
  run_deferred-ok_eq panic d w e = (run_deferred-ok panic d w (ap (λ r. r.0) e), ap (λ r. r.1) e)

  -- A function that returned a value with a deferred call: that call ran after it.
  pub deferring-ok_eq :
      (d : Run W Error Unit) (m : Run W E A) (w : W) {a : A} {v : W}
      → deferring d m w ≡ (ok a, v)
      → (u : W) × (m w ≡ (ok a, u)) × ((d u).1 ≡ v)
  deferring-ok_eq d m w e =
      let (ran, after) = run_deferred-ok_eq (m w).0 d (m w).1 e in
      ((m w).1, (λ i. (ran i, (m w).1)), after)

  -- The end of the process runs no deferred call.
  pub deferring_exit :
      (d : Run W Error Unit) (m : Run W E A) (w : W) {v : W}
      → m w ≡ (exit, v)
      → deferring d m w ≡ (exit, v)
  deferring_exit d m w ran = ap (λ r. run_deferred r.0 d r.1) ran

module _ {W E A : Type 0} where
  -- A predicate of the host that a call keeps, however it ends.
  abbrev pub Keeps : (W → Type 0) → Run W E A → Type 0
  Keeps P m = (w : W) → P w → P (m w).1

module _ {W E A B : Type 0} (P : W → Type 0) where
  keeps_continue :
      (r : Outcome E A) (f : A → Run W E B) (w : W)
      → P w
      → ((a : A) → Keeps P (f a))
      → P (continue r f w).1
  keeps_continue (ok a) f w p k = k a w p
  keeps_continue (err e) f w p k = p
  keeps_continue exit f w p k = p
  keeps_continue panic f w p k = p

  pub bind-Keeps :
      (m : Run W E A) (f : A → Run W E B)
      → Keeps P m
      → ((a : A) → Keeps P (f a))
      → Keeps P (m >>= f)
  bind-Keeps m f k l w p = keeps_continue (m w).0 f (m w).1 (k w p) l

module _ {W E A : Type 0} (P : W → Type 0) where
  pub Keeps_at : (m : Run W E A) {r : Outcome E A} {w u : W} → Keeps P m → m w ≡ (r, u) → P w → P u
  Keeps_at m {w = w} k e p = subst (λ q. P q.1) e (k w p)
