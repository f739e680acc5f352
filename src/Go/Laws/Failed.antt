-- ===== src/Go/Laws/Failed.antt =====
-- Calls in sequence that returned an error: which of them did; and what holds however they end.
use rit_k8s_rdma_sriov_cni.Base.{◌⊎◌, inl, inr, ◌≡◌, refl, ap}
use rit_k8s_rdma_sriov_cni.Go.{
  Outcome, ok, err, exit, panic, Run, continue, ◌>>=◌, ◌orelse◌, map_error, tried, attempt,
}

module _ {W E A B : Type 0} where
  continue-err_eq :
      (r : Outcome E A) (f : A → Run W E B) (w : W) {e : E} {v : W}
      → continue r f w ≡ (err e, v)
      → ((r ≡ err e) × (w ≡ v)) ⊎ ((a : A) × (r ≡ ok a) × (f a w ≡ (err e, v)))
  continue-err_eq (ok a) f w h = inr (a, refl, h)
  continue-err_eq (err x) f w h = inl (ap (λ r. failed r.0) h, ap (λ r. r.1) h)
    where
      failed : Outcome E B → Outcome E A
      failed (err e) = err e
      failed _ = exit
  continue-err_eq exit f w h = cc (ap (λ r. r.0) h)
  continue-err_eq panic f w h = cc (ap (λ r. r.0) h)

module _ {W E A B C : Type 0} where
  -- To argue from a chain that returned an error: the first part's, or that of the rest.
  pub by_error_eq :
      (m : Run W E A) (f : A → Run W E B) (w : W) {e : E} {v : W}
      → (m >>= f) w ≡ (err e, v)
      → (m w ≡ (err e, v) → C)
      → ((a : A) (u : W) → m w ≡ (ok a, u) → f a u ≡ (err e, v) → C)
      → C
  by_error_eq m f w r first rest = elim (continue-err_eq (m w).0 f (m w).1 r) [
    | inl (is, at) ↦ first (λ i. (is i, at i))
    | inr (a, is, later) ↦ rest a (m w).1 (λ i. (is i, (m w).1)) later
  ]

module _ {E F A : Type 0} where
  map_error-err :
      (f : E → F) (r : Outcome E A) {e : F}
      → map_error f r ≡ err e
      → (cause : E) × (r ≡ err cause) × (f cause ≡ e)
  map_error-err f (ok a) h = cc
  map_error-err f (err x) h = (x, refl, cc)
  map_error-err f exit h = cc
  map_error-err f panic h = cc

  tried-no_err : (r : Outcome E A) {e : F} → ¬ (tried {F = F} r ≡ err e)
  tried-no_err (ok a) h = cc
  tried-no_err (err x) h = cc
  tried-no_err exit h = cc
  tried-no_err panic h = cc

module _ {W E F A : Type 0} where
  pub orelse-err_eq :
      (m : Run W E A) (f : E → F) (w : W) {e : F} {v : W}
      → (m orelse f) w ≡ (err e, v)
      → (cause : E) × (m w ≡ (err cause, v)) × (f cause ≡ e)
  orelse-err_eq m f w r =
      let (cause, is, wrapped) = map_error-err f (m w).0 (ap (λ q. q.0) r) in
      (cause, λ i. (is i, (r i).1), wrapped)

  pub attempt-no_err :
      (m : Run W E A) (w : W) {e : F} {v : W} → ¬ (attempt {F = F} m w ≡ (err e, v))
  attempt-no_err m w r = tried-no_err (m w).0 (ap (λ q. q.0) r)

module _ {W E A B : Type 0} (P : W → Type 0) where
  continue_anyhow :
      (r : Outcome E A) (f : A → Run W E B) (u : W)
      → P u
      → ((a : A) → r ≡ ok a → P (f a u).1)
      → P (continue r f u).1
  continue_anyhow (ok a) f u p k = k a refl
  continue_anyhow (err e) f u p k = p
  continue_anyhow exit f u p k = p
  continue_anyhow panic f u p k = p

  -- To show that a chain, however it ends, leaves the host in a state with `P`.
  pub anyhow :
      (m : Run W E A) (f : A → Run W E B) (w : W)
      → P (m w).1
      → ((a : A) (u : W) → m w ≡ (ok a, u) → P (f a u).1)
      → P ((m >>= f) w).1
  anyhow m f w p k = continue_anyhow (m w).0 f (m w).1 p λ a e. k a (m w).1 (λ i. (e i, (m w).1))
