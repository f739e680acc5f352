-- ===== src/Go/Laws/Parts.antt =====
-- Calls in sequence: what the outcome of the whole tells of its parts, and back.
use rit_k8s_rdma_sriov_cni.Base.{
  ◌⊎◌, inl, inr, ◌≡◌, refl, ap, sym, ◌∙◌, Bool, true, false, if◌then◌else◌,
}
use rit_k8s_rdma_sriov_cni.Go.{
  Outcome, ok, err, exit, panic, Run, success, failure, continue, ◌>>=◌, ◌>>◌, ◌orelse◌, map_error,
  tried, attempt,
}

module _ {W E A B : Type 0} where
  continue-ok :
      (r : Outcome E A) (f : A → Run W E B) (w : W) {b : B}
      → (continue r f w).0 ≡ ok b
      → (a : A) × (r ≡ ok a) × ((f a w).0 ≡ ok b)
  continue-ok (ok a) f w h = (a, refl, h)
  continue-ok (err e) f w h = cc
  continue-ok exit f w h = cc
  continue-ok panic f w h = cc

  -- A chain that returned a value: both parts did.
  pub bind-ok :
      (m : Run W E A) (f : A → Run W E B) (w : W) {b : B}
      → ((m >>= f) w).0 ≡ ok b
      → (a : A) × ((m w).0 ≡ ok a) × ((f a (m w).1).0 ≡ ok b)
  bind-ok m f w h = continue-ok (m w).0 f (m w).1 h

  pub bind_at :
      (m : Run W E A) (f : A → Run W E B) (w : W) {a : A}
      → (m w).0 ≡ ok a
      → (m >>= f) w ≡ f a (m w).1
  bind_at m f w h = rw h

  pub bind_err :
      (m : Run W E A) (f : A → Run W E B) (w : W) {e : E}
      → (m w).0 ≡ err e
      → (m >>= f) w ≡ (err e, (m w).1)
  bind_err m f w h = rw h

module _ {E F A : Type 0} where
  map_error-ok : (f : E → F) (r : Outcome E A) {a : A} → map_error f r ≡ ok a → r ≡ ok a
  map_error-ok f (ok x) h = cc
  map_error-ok f (err e) h = cc
  map_error-ok f exit h = cc
  map_error-ok f panic h = cc

module _ {W E F A : Type 0} where
  pub orelse-ok :
      (m : Run W E A) (f : E → F) (w : W) {a : A} → ((m orelse f) w).0 ≡ ok a → (m w).0 ≡ ok a
  orelse-ok m f w h = map_error-ok f (m w).0 h

module _ {W E : Type 0} where
  continue_unit :
      (r : Outcome E Unit) (k : Run W E Unit) (w : W)
      → k w ≡ (ok tt, w)
      → continue r (λ _. k) w ≡ (r, w)
  continue_unit (ok tt) k w h = h
  continue_unit (err e) k w h = refl
  continue_unit exit k w h = refl
  continue_unit panic k w h = refl

  -- A rest that does nothing can be left off.
  pub bind_unit : (m k : Run W E Unit) (w : W) → ((v : W) → k v ≡ (ok tt, v)) → (m >> k) w ≡ m w
  bind_unit m k w h = continue_unit (m w).0 k (m w).1 (h (m w).1)

module _ {W E A B C : Type 0} where
  -- To argue from the parts of a chain that returned a value.
  pub by_parts :
      (m : Run W E A) (f : A → Run W E B) (w : W) {b : B}
      → ((m >>= f) w).0 ≡ ok b
      → ((a : A) (v : W) → m w ≡ (ok a, v) → (f a v).0 ≡ ok b → C)
      → C
  by_parts m f w h k =
      let (a, ran, rest) = bind-ok m f w h in k a (m w).1 (λ i. (ran i, (m w).1)) rest

module _ {W E A C : Type 0} where
  pub by_branch :
      (b : Bool) (m n : Run W E A) (w : W) {a : A}
      → ((if b then m else n) w).0 ≡ ok a
      → ((m w).0 ≡ ok a → C)
      → ((n w).0 ≡ ok a → C)
      → C
  by_branch true m n w h f g = f h
  by_branch false m n w h f g = g h

module _ {E F A : Type 0} where
  tried-success : (r : Outcome E A) {a : A} → tried {F = F} r ≡ ok (success a) → r ≡ ok a
  tried-success (ok x) e = cc
  tried-success (err x) e = cc
  tried-success exit e = cc
  tried-success panic e = cc

module _ {E F A : Type 0} where
  tried-failure : (r : Outcome E A) {e : E} → tried {F = F} r ≡ ok (failure e) → r ≡ err e
  tried-failure (ok x) e = cc
  tried-failure (err x) e = cc
  tried-failure exit e = cc
  tried-failure panic e = cc

module _ {W E F A : Type 0} where
  pub attempt-failure_eq :
      (m : Run W E A) (w : W) {e : E} {v : W}
      → attempt {F = F} m w ≡ (ok (failure e), v)
      → m w ≡ (err e, v)
  attempt-failure_eq m w h i = (tried-failure (m w).0 (ap (λ r. r.0) h) i, (h i).1)

  pub attempt-success_eq :
      (m : Run W E A) (w : W) {a : A} {v : W}
      → attempt {F = F} m w ≡ (ok (success a), v)
      → m w ≡ (ok a, v)
  attempt-success_eq m w h i = (tried-success (m w).0 (ap (λ r. r.0) h) i, (h i).1)

  pub attempt-success :
      (m : Run W E A) (w : W) {a : A} → (attempt {F = F} m w).0 ≡ ok (success a) → (m w).0 ≡ ok a
  attempt-success m w e = tried-success (m w).0 e

module _ {W E A B : Type 0} where
  continue-err :
      (r : Outcome E A) (f : A → Run W E B) (w : W) {e : E}
      → (continue r f w).0 ≡ err e
      → (r ≡ err e) ⊎ ((a : A) × ((f a w).0 ≡ err e))
  continue-err (ok a) f w h = inr (a, h)
  continue-err (err x) f w h = inl cc
  continue-err exit f w h = cc
  continue-err panic f w h = cc

  -- The error of a chain is one of its parts'.
  pub bind-err :
      (m : Run W E A) (f : A → Run W E B) (w : W) {e : E}
      → ((m >>= f) w).0 ≡ err e
      → ((m w).0 ≡ err e) ⊎ ((a : A) × ((f a (m w).1).0 ≡ err e))
  bind-err m f w h = continue-err (m w).0 f (m w).1 h

  pub bind_eq :
      (m : Run W E A) (f : A → Run W E B) (w : W) {a : A} {v : W}
      → m w ≡ (ok a, v)
      → (m >>= f) w ≡ f a v
  bind_eq m f w {a} {v} e = ap (λ r. continue r.0 f r.1) e

  pub bind_eq_exit :
      (m : Run W E A) (f : A → Run W E B) (w : W) {v : W}
      → m w ≡ (exit, v)
      → (m >>= f) w ≡ (exit, v)
  bind_eq_exit m f w p = ap (λ r. continue r.0 f r.1) p

  pub bind_eq_err :
      (m : Run W E A) (f : A → Run W E B) (w : W) {e : E} {v : W}
      → m w ≡ (err e, v)
      → (m >>= f) w ≡ (err e, v)
  bind_eq_err m f w p = ap (λ r. continue r.0 f r.1) p

module _ {W E F A : Type 0} where
  pub attempt_eq :
      (m : Run W E A) (w : W) {a : A} {v : W}
      → m w ≡ (ok a, v)
      → attempt {F = F} m w ≡ (ok (success a), v)
  attempt_eq m w e = ap (λ r. (tried r.0, r.1)) e

  pub attempt_eq_err :
      (m : Run W E A) (w : W) {e : E} {v : W}
      → m w ≡ (err e, v)
      → attempt {F = F} m w ≡ (ok (failure e), v)
  attempt_eq_err m w e = ap (λ r. (tried r.0, r.1)) e

module _ {W E A : Type 0} where
  pub if_true : (b : Bool) (m n : Run W E A) (w : W) → b ≡ true → (if b then m else n) w ≡ m w
  if_true b m n w e = ap (λ c. (if c then m else n) w) e

  pub if_false : (b : Bool) (m n : Run W E A) (w : W) → b ≡ false → (if b then m else n) w ≡ n w
  if_false b m n w e = ap (λ c. (if c then m else n) w) e

module _ {W E A B C : Type 0} where
  pub by_parts_eq :
      (m : Run W E A) (f : A → Run W E B) (w : W) {b : B} {v : W}
      → (m >>= f) w ≡ (ok b, v)
      → ((a : A) (u : W) → m w ≡ (ok a, u) → f a u ≡ (ok b, v) → C)
      → C
  by_parts_eq m f w h k =
      by_parts m f w (ap (λ r. r.0) h) λ a u ran _. k a u ran (sym (bind_eq m f w ran) ∙ h)

module _ {W E F A : Type 0} where
  pub orelse-ok_eq :
      (m : Run W E A) (f : E → F) (w : W) {a : A} {v : W}
      → (m orelse f) w ≡ (ok a, v)
      → m w ≡ (ok a, v)
  orelse-ok_eq m f w h i = (orelse-ok m f w (ap (λ r. r.0) h) i, (h i).1)

  pub orelse_eq :
      (m : Run W E A) (f : E → F) (w : W) {a : A} {v : W}
      → m w ≡ (ok a, v)
      → (m orelse f) w ≡ (ok a, v)
  orelse_eq m f w h = ap (λ r. (map_error f r.0, r.1)) h

  pub orelse_eq_err :
      (m : Run W E A) (f : E → F) (w : W) {e : E} {v : W}
      → m w ≡ (err e, v)
      → (m orelse f) w ≡ (err (f e), v)
  orelse_eq_err m f w h = ap (λ r. (map_error f r.0, r.1)) h
