-- ===== src/Network/Sheltering.antt =====
-- Calls of a DEL that leave the devices of other namespaces alone, however they end.
use rit_k8s_rdma_sriov_cni.Base.{ℕ, ◌≡◌, ◌∙◌, inl, inr, String, Bool, List, if◌then◌else◌}
use rit_k8s_rdma_sriov_cni.Go.{
  Error, Outcome, ok, err, exit, panic, Run, attempt, deferring, run_deferred, ◌>>=◌, ◌orelse◌,
}
use rit_k8s_rdma_sriov_cni.Go.Laws.{Keeps, bind-Keeps}
use rit_k8s_rdma_sriov_cni.Host.{Host, Ns}
use rit_k8s_rdma_sriov_cni.Network.{View, Devices, IsQuiet}
use rit_k8s_rdma_sriov_cni.Network.Confining.{Spares}
use rit_k8s_rdma_sriov_cni.Network.Guarding.{Foreign, Foreign-same}

-- The call changes no device's place or name; it may move the thread.
abbrev pub IsStill : {W E A : Type 0} → View W → Run W E A → Type 0
IsStill {W} v m = (w : W) → v.devices (m w).1 ≡ v.devices w

-- A `Do` around a call that changes nothing
pub do_in_ns-IsStill :
    {W : Type 0} (h : Host W) (v : View W)
    → Spares h v
    → (ns : Ns) (m : Run W Error Unit) → IsQuiet v m
    → IsStill v (h.do_in_ns ns m)
do_in_ns-IsStill h v spares ns m q w = elim (spares.doing ns m w) [
  | inl idle ↦ idle
  | inr (a, da, _, ran) ↦ ran ∙ (q.same a).0 ∙ da
]

-- What is assumed of the other calls of a DEL: they change no device's place or name.
pub record Shelters {W : Type 0} (h : Host W) (v : View W) : Type 0 where
  pub returning : (ipam_type stdin : String) → IsStill v (h.exec_del ipam_type stdin)
  pub running : (args : List String) → IsStill v (h.run_command args)
  pub querying :
      (address port : String) (timeout : ℕ) → IsStill v (h.query_node address port timeout)
  pub getting_netns : IsStill v h.get_netns
  pub opening_netns : (path : String) → IsStill v (h.get_netns_from_path path)
  pub entering_netns : (ns : Ns) → IsStill v (h.set_netns ns)
  pub closing_netns : (ns : Ns) → IsStill v (h.close_netns ns)
  pub listing_interfaces : IsStill v h.interfaces
  pub unlinking : (file : String) → IsStill v (h.unlink file)
  pub closing_file : (file : String) → IsStill v (h.close_file file)

module _ {W : Type 0} (v : View W) (pod : ℕ) (start : Devices) where
  -- The devices of other namespaces are as they were.
  abbrev pub Sheltered : W → Type 0
  Sheltered w = Foreign pod start (v.devices w)

  -- The call, however it ends, leaves them so.
  pub record IsSheltered {E A : Type 0} (m : Run W E A) : Type 0 where
    pub keeps : Keeps Sheltered m

  pub still_call : {E A : Type 0} {m : Run W E A} → IsStill v m → IsSheltered m
  still_call q = record { keeps = λ w f. Foreign-same f (q w) }

  pub quiet_call : {E A : Type 0} {m : Run W E A} → IsQuiet v m → IsSheltered m
  quiet_call q = record { keeps = λ w f. Foreign-same f (q.same w).0 }

  pub bind-IsSheltered :
      {E A B : Type 0} {m : Run W E A} {f : A → Run W E B}
      → IsSheltered m
      → ((a : A) → IsSheltered (f a))
      → IsSheltered (m >>= f)
  bind-IsSheltered {m = m} {f} k l = record {
    keeps = bind-Keeps Sheltered m f k.keeps λ a. (l a).keeps;
  }

  pub orelse-IsSheltered :
      {E F A : Type 0} {m : Run W E A} (f : E → F) → IsSheltered m → IsSheltered (m orelse f)
  orelse-IsSheltered f k = record { keeps = λ w p. k.keeps w p }

  pub attempt-IsSheltered :
      {E F A : Type 0} {m : Run W E A} → IsSheltered m → IsSheltered (attempt {F = F} m)
  attempt-IsSheltered k = record { keeps = λ w p. k.keeps w p }

  pub after_deferred :
      {E A : Type 0} (r : Outcome E A) {d : Run W Error Unit} (u : W)
      → Sheltered u
      → IsSheltered d
      → Sheltered (run_deferred r d u).1
  after_deferred (ok a) u f k = k.keeps u f
  after_deferred (err e) u f k = k.keeps u f
  after_deferred exit u f k = f
  after_deferred panic u f k = k.keeps u f

  pub deferring-IsSheltered :
      {E A : Type 0} {d : Run W Error Unit} {m : Run W E A}
      → IsSheltered d
      → IsSheltered m
      → IsSheltered (deferring d m)
  deferring-IsSheltered {m = m} k l = record {
    keeps = λ w f. after_deferred (m w).0 (m w).1 (l.keeps w f) k;
  }

  pub if-IsSheltered :
      {E A : Type 0} (b : Bool) {m n : Run W E A}
      → IsSheltered m
      → IsSheltered n
      → IsSheltered (if b then m else n)
  if-IsSheltered Bool.true k l = k
  if-IsSheltered Bool.false k l = l
