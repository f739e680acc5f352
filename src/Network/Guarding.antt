-- ===== src/Network/Guarding.antt =====
-- Calls in the pod's namespace that leave the devices of other namespaces alone, however they end.
use native.Mathlib.Decide.{ℕ_discrete}
use rit_k8s_rdma_sriov_cni.Base.{
  ℕ, ◌≡◌, ◌≢◌, sym, ap, ◌∙◌, subst, inl, inr, Bool, true, false, if◌then◌else◌,
}
use rit_k8s_rdma_sriov_cni.Go.{Error, Outcome, ok, Run, ◌>>=◌, ◌orelse◌}
use rit_k8s_rdma_sriov_cni.Go.Laws.{anyhow, by_parts_eq, orelse-ok}
use rit_k8s_rdma_sriov_cni.Host.{Host, Ns}
use rit_k8s_rdma_sriov_cni.Network.{View, Devices, Only, IsQuiet, Obeys}
use rit_k8s_rdma_sriov_cni.Network.Rounds.{do_in_ns-Same}
use rit_k8s_rdma_sriov_cni.Network.Confining.{Spares}

-- The devices that were not in namespace `pod` are where they were, under their names.
abbrev pub Foreign : ℕ → Devices → Devices → Type 0
Foreign pod a b = (j : ℕ) → a.ns_of j ≢ pod → (b.ns_of j ≡ a.ns_of j) × (b.name_of j ≡ a.name_of j)

pub Foreign-same : {pod : ℕ} {a b c : Devices} → Foreign pod a b → c ≡ b → Foreign pod a c
Foreign-same f e j out =
    let (ns, name) = f j out in (ap (λ d. d.ns_of j) e ∙ ns, ap (λ d. d.name_of j) e ∙ name)

-- A device of the pod may change.
pub Foreign-Only :
    {pod id : ℕ} {a b c : Devices}
    → a.ns_of id ≡ pod
    → Foreign pod a b
    → Only id b c
    → Foreign pod a c
Foreign-Only {a = a} here f only j out =
    let (ns, name) = f j out in
    let (ns', name') = only j (λ e. out (ap a.ns_of e ∙ here)) in (ns' ∙ ns, name' ∙ name)

-- A device that is in the pod's namespace was there.
pub was_there :
    {pod : ℕ} {a b : Devices} (id : ℕ) → Foreign pod a b → b.ns_of id ≡ pod → a.ns_of id ≡ pod
was_there {pod} {a} {b} id f now = elim (ℕ_discrete (a.ns_of id) pod) [
  | yes e ↦ e
  | no out ↦ absurd (out (sym (f id out).0 ∙ now))
]

module _ {W : Type 0} (v : View W) (pod : ℕ) (start : Devices) where
  abbrev pub Inside : W → Type 0
  Inside w = Foreign pod start (v.devices w) × (v.current w ≡ pod)

  -- The other devices are left alone, and if a value was returned the thread is in the pod's namespace.
  abbrev pub Good : {E A : Type 0} → Outcome E A × W → Type 0
  Good {A = A} r = Foreign pod start (v.devices r.1) × ((a : A) → r.0 ≡ ok a → v.current r.1 ≡ pod)

  pub record Guards {E A : Type 0} (m : Run W E A) : Type 0 where
    pub runs : (w : W) → Inside w → Good (m w)

  pub after-Inside :
      {E A : Type 0} (m : Run W E A) (w : W) {a : A} {u : W}
      → Good (m w)
      → m w ≡ (ok a, u)
      → Inside u
  after-Inside m w {a = a} g e = (
    subst (λ r. Foreign pod start (v.devices r.1)) e g.0,
    subst (λ r. v.current r.1 ≡ pod) e (g.1 a (ap (λ r. r.0) e)),
  )

  pub bind-Good :
      {E A B : Type 0} (m : Run W E A) (f : A → Run W E B) (w : W)
      → Foreign pod start (v.devices (m w).1)
      → ((a : A) (u : W) → m w ≡ (ok a, u) → Good (f a u))
      → Good ((m >>= f) w)
  bind-Good m f w spared k = (
    anyhow (λ u. Foreign pod start (v.devices u)) m f w spared (λ a u e. (k a u e).0),
    λ b is.
        by_parts_eq m f w (λ i. (is i, ((m >>= f) w).1))
          λ a x e1 e2. subst (λ r. v.current r.1 ≡ pod) e2 ((k a x e1).1 b (ap (λ r. r.0) e2)),
  )

  pub bind-Guards :
      {E A B : Type 0} {m : Run W E A} {f : A → Run W E B}
      → Guards m
      → ((a : A) → Guards (f a))
      → Guards (m >>= f)
  bind-Guards {m = m} {f} g k = record {
    runs = λ w i.
        bind-Good m f w (g.runs w i).0 λ a u e. (k a).runs u (after-Inside m w (g.runs w i) e);
  }

  pub quiet-Good : {E A : Type 0} {m : Run W E A} (w : W) → IsQuiet v m → Inside w → Good (m w)
  quiet-Good w q i = (Foreign-same i.0 (q.same w).0, λ a e. (q.same w).1 ∙ i.1)

  pub quiet-Guards : {E A : Type 0} {m : Run W E A} → IsQuiet v m → Guards m
  quiet-Guards q = record { runs = λ w i. quiet-Good w q i }

  pub orelse-Guards : {E F A : Type 0} {m : Run W E A} (f : E → F) → Guards m → Guards (m orelse f)
  orelse-Guards {m = m} f g = record {
    runs = λ w i. ((g.runs w i).0, λ a e. (g.runs w i).1 a (orelse-ok m f w e));
  }

  pub if-Guards :
      {E A : Type 0} (b : Bool) {m n : Run W E A}
      → Guards m
      → Guards n
      → Guards (if b then m else n)
  if-Guards true g k = g
  if-Guards false g k = k

module _ {W : Type 0} (h : Host W) (v : View W) (law : Obeys h v) (spares : Spares h v) (pod : ℕ)
    (start : Devices) where
  pub do_in_ns-Guards :
      (ns : Ns) (m : Run W Error Unit) → IsQuiet v m → Guards v pod start (h.do_in_ns ns m)
  do_in_ns-Guards ns m q = record {
    runs = λ w i. (
      elim (spares.doing ns m w) [
        | inl idle ↦ Foreign-same i.0 idle
        | inr (a, da, _, ran) ↦ Foreign-same i.0 (ran ∙ (q.same a).0 ∙ da)
      ],
      λ _ e.
          (do_in_ns-Same h v law ns m w (h.do_in_ns ns m w).1 q
            (λ k. (e k, (h.do_in_ns ns m w).1))).1
          ∙ i.1,
    );
  }
