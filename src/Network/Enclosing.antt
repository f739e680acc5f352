-- ===== src/Network/Enclosing.antt =====
-- Calls of an ADD that leave the devices of other namespaces than two alone, however they end.
use rit_k8s_rdma_sriov_cni.Base.{ℕ, ◌≡◌, ◌≢◌, refl, sym, ap, ◌∙◌}
use rit_k8s_rdma_sriov_cni.Go.{
  Error, Outcome, ok, err, exit, panic, Run, deferring, run_deferred, ◌>>=◌,
}
use rit_k8s_rdma_sriov_cni.Go.Laws.{anyhow}
use rit_k8s_rdma_sriov_cni.Network.{View, Devices, quiet_at, IsQuiet}
use rit_k8s_rdma_sriov_cni.Network.Guarding.{Foreign}
use rit_k8s_rdma_sriov_cni.Network.Sheltering.{IsStill}

-- The devices that were in neither of two namespaces are where they were, under their names.
abbrev pub Beyond : ℕ → ℕ → Devices → Devices → Type 0
Beyond home pod a b =
    (j : ℕ)
    → a.ns_of j ≢ home
    → a.ns_of j ≢ pod
    → (b.ns_of j ≡ a.ns_of j) × (b.name_of j ≡ a.name_of j)

-- A change within one namespace, then one within the other
pub Foreign-Beyond :
    {home pod : ℕ} {a b c : Devices} → Foreign home a b → Foreign pod b c → Beyond home pod a c
Foreign-Beyond f g j out_home out_pod =
    let (ns, name) = f j out_home in
    let (ns', name') = g j (λ e. out_pod (sym ns ∙ e)) in (ns' ∙ ns, name' ∙ name)

pub Beyond-same :
    {home pod : ℕ} {a b c : Devices} → Beyond home pod a b → c ≡ b → Beyond home pod a c
Beyond-same f e j out_home out_pod =
    let (ns, name) = f j out_home out_pod in
    (ap (λ d. d.ns_of j) e ∙ ns, ap (λ d. d.name_of j) e ∙ name)

module _ {W : Type 0} (v : View W) (home pod : ℕ) (start : Devices) where
  abbrev pub Contained : W → Type 0
  Contained w = Beyond home pod start (v.devices w)

  -- The state is as at the start.
  abbrev pub Starts : W → Type 0
  Starts w = (v.devices w ≡ start) × (v.current w ≡ home)

  pub Starts-Contained : {w : W} → v.devices w ≡ start → Contained w
  Starts-Contained e = Beyond-same (λ j _ _. (refl, refl)) e

  -- From the start the call, however it ends, changes only devices of the two namespaces.
  pub record IsContained {E A : Type 0} (m : Run W E A) : Type 0 where
    pub ends : (w : W) → Starts w → Contained (m w).1

  pub after_quiet :
      {E A B : Type 0} {m : Run W E A} {f : A → Run W E B}
      → IsQuiet v m
      → ((a : A) (w u : W) → m w ≡ (ok a, u) → IsContained (f a))
      → IsContained (m >>= f)
  after_quiet {m = m} {f} q k = record {
    ends = λ w s.
        anyhow Contained m f w (Starts-Contained ((q.same w).0 ∙ s.0))
          λ a u e. let same = quiet_at v q e in (k a w u e).ends u (same.0 ∙ s.0, same.1 ∙ s.1);
  }

  after_deferred :
      {E A : Type 0} (r : Outcome E A) (d : Run W Error Unit) (u : W)
      → Contained u
      → IsStill v d
      → Contained (run_deferred r d u).1
  after_deferred (ok a) d u f q = Beyond-same f (q u)
  after_deferred (err e) d u f q = Beyond-same f (q u)
  after_deferred exit d u f q = f
  after_deferred panic d u f q = Beyond-same f (q u)

  pub deferring-IsContained :
      {E A : Type 0} {d : Run W Error Unit} {m : Run W E A}
      → IsQuiet v d
      → IsContained m
      → IsContained (deferring d m)
  deferring-IsContained {d = d} {m} q k = record {
    ends = λ w s. after_deferred (m w).0 d (m w).1 (k.ends w s) λ u. (q.same u).0;
  }
