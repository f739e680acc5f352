-- ===== src/Go.antt =====
-- What the program uses of Go: errors, calls that may fail or end the process, `defer`.
pub mod Strings
pub mod Strconv
pub mod FilePath
pub mod Laws
use rit_k8s_rdma_sriov_cni.Base.{String, List, ◌≡◌, refl, ◌⊎◌, inl, inr}

-- An error of a called library, or one that the program formats, with the cause that it wraps.
pub data Error : Type 0 where
  host : String → Error
  errorf : String → List String → Error
  wrapf : String → List String → Error → Error

-- How a call ends: with a value, with an error value, with the end of the process (`log.Fatal`, or a
-- panic in another goroutine), or with a panic that unwinds the stack.
pub data Outcome (E A : Type 0) : Type 0 where
  ok : A → Outcome E A
  err : E → Outcome E A
  exit : Outcome E A
  panic : Outcome E A

-- A call over a host state `W`.
abbrev pub Run : Type 0 → Type 0 → Type 0 → Type 0
Run W E A = W → Outcome E A × W

-- An error value that the caller looks at, instead of returning it.
pub data Tried (E A : Type 0) : Type 0 where
  success : A → Tried E A
  failure : E → Tried E A

pub Tried-cases :
    {E A : Type 0} (r : Tried E A) → ((e : E) × (r ≡ failure e)) ⊎ ((a : A) × (r ≡ success a))
Tried-cases (success a) = inr (a, refl)
Tried-cases (failure e) = inl (e, refl)

module _ {W E A : Type 0} where
  abbrev pub pure : A → Run W E A
  pure a w = (ok a, w)

  abbrev pub fail : E → Run W E A
  fail e w = (err e, w)

  -- `log.Fatal`: deferred calls do not run.
  abbrev pub fatal : Run W E A
  fatal w = (exit, w)

  abbrev pub panics : Run W E A
  panics w = (panic, w)

  abbrev pub of_tried : Tried E A → Run W E A
  of_tried (success a) w = (ok a, w)
  of_tried (failure e) w = (err e, w)

module _ {W E A B : Type 0} where
  abbrev pub continue : Outcome E A → (A → Run W E B) → Run W E B
  continue (ok a) f w = f a w
  continue (err e) f w = (err e, w)
  continue exit f w = (exit, w)
  continue panic f w = (panic, w)

  infixl 10 ◌>>=◌ ◌>>◌
  abbrev pub ◌>>=◌ : Run W E A → (A → Run W E B) → Run W E B
  ◌>>=◌ m f w = let (r, w') = m w in continue r f w'

  abbrev pub ◌>>◌ : Run W E A → Run W E B → Run W E B
  m >> n = m >>= λ _. n

module _ {E F A : Type 0} where
  abbrev pub map_error : (E → F) → Outcome E A → Outcome F A
  map_error f (ok a) = ok a
  map_error f (err e) = err (f e)
  map_error f exit = exit
  map_error f panic = panic

  abbrev pub tried : Outcome E A → Outcome F (Tried E A)
  tried (ok a) = ok (success a)
  tried (err e) = ok (failure e)
  tried exit = exit
  tried panic = panic

  abbrev pub forget : Outcome E A → Outcome F Unit
  forget (ok a) = ok tt
  forget (err e) = ok tt
  forget exit = exit
  forget panic = panic

module _ {W E F A : Type 0} where
  -- `if err != nil { return …(err) }`
  infixl 20 ◌orelse◌
  abbrev pub ◌orelse◌ : Run W E A → (E → F) → Run W F A
  ◌orelse◌ m f w = let (r, w') = m w in (map_error f r, w')

  -- The call's error as a value.
  abbrev pub attempt : Run W E A → Run W F (Tried E A)
  attempt m w = let (r, w') = m w in (tried r, w')

  -- A call whose error nobody reads.
  abbrev pub ignore : Run W E A → Run W F Unit
  ignore m w = let (r, w') = m w in (forget r, w')

module _ {E A : Type 0} where
  -- What a return or a panic becomes once a deferred call has run.
  abbrev pub after : Outcome E A → Outcome Error Unit → Outcome E A
  after r (ok _) = r
  after r (err _) = r
  after r exit = exit
  after r panic = panic

module _ {W E A : Type 0} where
  abbrev pub run_deferred : Outcome E A → Run W Error Unit → Run W E A
  run_deferred exit d w = (exit, w)
  run_deferred r d w = let (q, w') = d w in (after r q, w')

  -- `defer d()` in front of the calls of `m`: `d` runs when `m` returns or panics, and not when the
  -- process ends.
  abbrev pub deferring : Run W Error Unit → Run W E A → Run W E A
  deferring d m w = let (r, w') = m w in run_deferred r d w'
