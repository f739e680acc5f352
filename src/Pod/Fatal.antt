-- ===== src/Pod/Fatal.antt =====
-- `or_fatal` on a call that returned.
use rit_k8s_rdma_sriov_cni.Base.{◌≡◌, ap, ◌∙◌}
use rit_k8s_rdma_sriov_cni.Go.{
  Error, ok, err, exit, Run, Tried, success, failure, pure, fatal, attempt, ◌>>=◌,
}
use rit_k8s_rdma_sriov_cni.Go.Laws.{
  bind_eq, bind_eq_exit, attempt_eq, attempt_eq_err, attempt-success_eq, by_parts_eq,
}
use rit_k8s_rdma_sriov_cni.Host.{Cluster}
use rit_k8s_rdma_sriov_cni.Pod.{or_fatal}

module _ {W : Type 0} (c : Cluster W) {A : Type 0} (m : Run W Error A) (w u : W) where
  pub or_fatal-ok : (a : A) → m w ≡ (ok a, u) → or_fatal c m w ≡ (ok a, u)
  unfolding or_fatal
  or_fatal-ok a e = bind_eq (attempt m) _ w (attempt_eq {F = Error} m w e)

  pub or_fatal-err : (x : Error) → m w ≡ (err x, u) → or_fatal c m w ≡ (exit, u)
  unfolding or_fatal
  or_fatal-err x e = bind_eq (attempt m) _ w (attempt_eq_err {F = Error} m w e)

  -- What follows such a call
  pub then_ok :
      {B : Type 0} (a : A) (k : A → Run W Error B)
      → m w ≡ (ok a, u)
      → (or_fatal c m >>= k) w ≡ k a u
  then_ok a k e = bind_eq (or_fatal c m) k w (or_fatal-ok a e)

  pub then_exit :
      {B : Type 0} (x : Error) (k : A → Run W Error B)
      → m w ≡ (err x, u)
      → (or_fatal c m >>= k) w ≡ (exit, u)
  then_exit x k e = bind_eq_exit (or_fatal c m) k w (or_fatal-err x e)

  settled :
      (a : A) (t : Tried Error A) (x v : W)
      → attempt {F = Error} m w ≡ (ok t, x)
      → (elim t as (λ _. Run W Error A) [
        | success b ↦ pure {W = W} {E = Error} b
        | failure e ↦ fatal
      ])
          x
        ≡ (ok a, v)
      → m w ≡ (ok a, v)
  settled a (success b) x v ran rest = attempt-success_eq {F = Error} m w ran ∙ rest
  settled a (failure e) x v ran rest = cc (ap (λ r. r.0) rest)

  pub or_fatal-back : (a : A) (v : W) → or_fatal c m w ≡ (ok a, v) → m w ≡ (ok a, v)
  unfolding or_fatal
  or_fatal-back a v e = by_parts_eq (attempt m) _ w e λ t x ran rest. settled a t x v ran rest
