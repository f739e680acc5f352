-- ===== src/Network.antt =====
-- An abstract view of the host's network devices: for each device its namespace and its name there,
-- and the thread's namespace. It says what netlink, the namespaces, the file system and other
-- processes do to it.
pub mod Quiet
pub mod Rename
pub mod Choosing
pub mod Steps
pub mod Placing
pub mod Rounds
pub mod Detaching
pub mod Returning
pub mod Undoing
pub mod Recovering
pub mod Taken
pub mod Taking
pub mod Emptying
pub mod Restoring
pub mod Attending
pub mod Serving
pub mod Confining
pub mod Sparing
pub mod Guarding
pub mod Isolating
pub mod Sheltering
pub mod Leaving
pub mod Deleting
pub mod Adding
pub mod Rolling
pub mod Enclosing
pub mod Containing
use rit_k8s_rdma_sriov_cni.Base.{ℕ, String, ◌<>◌, ◌≡◌, ◌≢◌, refl, sym, ap, ◌∙◌, subst, List}
use rit_k8s_rdma_sriov_cni.Go.{Error, Outcome, ok, Run}
use rit_k8s_rdma_sriov_cni.Go.Laws.{Keeps}
use rit_k8s_rdma_sriov_cni.Go.Strconv.{ℤ, itoa}
use rit_k8s_rdma_sriov_cni.Host.{Host, Link, Ns}

-- A device is known by a number of its own, which a move to another namespace keeps; so is a
-- namespace, for which there may be many handles.
pub record Devices : Type 0 where
  pub ns_of : ℕ → ℕ
  pub name_of : ℕ → String

-- All devices but `id` are where they were, under the names that they had.
abbrev pub Only : ℕ → Devices → Devices → Type 0
Only id a b = (j : ℕ) → j ≢ id → (b.ns_of j ≡ a.ns_of j) × (b.name_of j ≡ a.name_of j)

pub Only-refl : {id : ℕ} {a b : Devices} → b ≡ a → Only id a b
Only-refl e j ne = (ap (λ d. d.ns_of j) e, ap (λ d. d.name_of j) e)

pub Only-trans : {id : ℕ} {a b c : Devices} → Only id a b → Only id b c → Only id a c
Only-trans f g j ne = let (p, q) = f j ne in let (r, s) = g j ne in (r ∙ p, s ∙ q)

-- The view of a host state. `space` is the namespace that a handle was opened for, and `Denotes l id w` says that the handle `l` is for the device `id`.
pub record View (W : Type 0) : Type 1 where
  pub devices : W → Devices
  pub current : W → ℕ
  pub space : Ns → ℕ
  pub Denotes : Link → ℕ → W → Type 0

module _ {W : Type 0} (v : View W) where
  -- Device `id` is in namespace `ns` under a name.
  abbrev pub Placed : ℕ → ℕ → String → W → Type 0
  Placed id ns name w = ((v.devices w).ns_of id ≡ ns) × ((v.devices w).name_of id ≡ name)

  abbrev pub Same : W → W → Type 0
  Same w u = (v.devices u ≡ v.devices w) × (v.current u ≡ v.current w)

  -- The call changes nothing in the view, however it ends.
  pub record IsQuiet {E A : Type 0} (m : Run W E A) : Type 0 where
    pub same : (w : W) → Same w (m w).1

  -- One device was put elsewhere, or got another name; the thread stays in its namespace.
  pub record Puts (id ns : ℕ) (name : String) (w u : W) : Type 0 where
    pub placed : Placed id ns name u
    pub others : Only id (v.devices w) (v.devices u)
    pub stays : v.current u ≡ v.current w

module _ {W : Type 0} (v : View W) where
  -- A device that was in the thread's namespace under name `info` is in namespace `ns` under `name`;
  -- no other device has changed, and the thread is where it was.
  abbrev pub Moved : String → ℕ → String → W → W → Type 0
  Moved info ns name w u = (id : ℕ) × Placed v id (v.current w) info w × Puts v id ns name w u

  -- The device has a name of the form that a release gives, in namespace `ns`, and no other device
  -- has changed.
  abbrev pub Left : ℕ → ℕ → W → W → Type 0
  Left id ns w u =
      ((index : ℕ) × Placed v id ns ("dev" <> itoa index) u) × Only id (v.devices w) (v.devices u)

  -- Device `info` of the thread's namespace is there again, under a name of `dev` and a number, and
  -- the other devices are as they were.
  abbrev pub Returned : String → W → W → Type 0
  Returned info w u = (id : ℕ) × Placed v id (v.current w) info w × Left id (v.current w) w u

-- What is assumed of the host. Names are unique in a namespace. Netlink finds devices in the thread's
-- namespace; a change that succeeds is made to the device of the handle. `Do` runs a function in
-- another namespace and comes back. No other call that the setup and the release of a VF make
-- changes a device's place or name.
pub record Obeys {W : Type 0} (h : Host W) (v : View W) : Type 0 where
  pub unique :
      (w : W) (i j : ℕ)
      → (v.devices w).ns_of i ≡ (v.devices w).ns_of j
      → (v.devices w).name_of i ≡ (v.devices w).name_of j
      → i ≡ j
  pub finds :
      (name : String) (l : Link) (w u : W)
      → h.link_by_name name w ≡ (ok l, u)
      → (id : ℕ) × v.Denotes l id u × Placed v id (v.current w) name w
  pub renames :
      (l : Link) (new : String) (id : ℕ) (w u : W)
      → v.Denotes l id w
      → h.link_set_name l new w ≡ (ok tt, u)
      → Puts v id ((v.devices w).ns_of id) new w u
  pub moves :
      (l : Link) (ns : Ns) (id : ℕ) (w u : W)
      → v.Denotes l id w
      → h.link_set_ns_fd l ns w ≡ (ok tt, u)
      → Puts v id (v.space ns) ((v.devices w).name_of id) w u
  pub does_in_ns :
      (ns : Ns) (m : Run W Error Unit) (w u : W)
      → h.do_in_ns ns m w ≡ (ok tt, u)
      → (a : W) × (b : W) × (v.devices a ≡ v.devices w)
        × (v.current a ≡ v.space ns)
        × (m a ≡ (ok tt, b))
        × (v.devices u ≡ v.devices b)
        × (v.current u ≡ v.current w)
  pub gets_current :
      (ns : Ns) (w u : W) → h.get_current_ns w ≡ (ok ns, u) → v.space ns ≡ v.current w
  pub sets_ns : (ns : Ns) (w u : W) → h.set_ns ns w ≡ (ok tt, u) → v.current u ≡ v.space ns
  pub setting_ns : (ns : Ns) (w : W) → v.devices (h.set_ns ns w).1 ≡ v.devices w
  -- A handle stands for its device until the device is moved.
  pub looking_denotes :
      (l : Link) (id : ℕ) (name : String) → Keeps (v.Denotes l id) (h.link_by_name name)
  pub renaming_denotes :
      (l l' : Link) (id : ℕ) (new : String) → Keeps (v.Denotes l id) (h.link_set_name l' new)
  pub up_denotes : (l l' : Link) (id : ℕ) → Keeps (v.Denotes l id) (h.link_set_up l')
  pub down_denotes : (l l' : Link) (id : ℕ) → Keeps (v.Denotes l id) (h.link_set_down l')
  pub looking : (name : String) → IsQuiet v (h.link_by_name name)
  pub setting_up : (l : Link) → IsQuiet v (h.link_set_up l)
  pub setting_down : (l : Link) → IsQuiet v (h.link_set_down l)
  pub setting_vlan : (l : Link) (vf vlan : ℤ) → IsQuiet v (h.link_set_vf_vlan l vf vlan)
  pub getting_current : IsQuiet v h.get_current_ns
  pub getting_ns : (path : String) → IsQuiet v (h.get_ns path)
  pub closing_ns : (ns : Ns) → IsQuiet v (h.close_ns ns)
  pub seeing : (path : String) → IsQuiet v (h.lstat path)
  pub testing : (path : String) → IsQuiet v (h.stat path)
  pub listing : (path : String) → IsQuiet v (h.read_dir path)
  pub reading : (path : String) → IsQuiet v (h.read_file path)
  pub linking : (path : String) → IsQuiet v (h.read_link path)
  pub following : (path : String) → IsQuiet v (h.eval_symlinks path)
  pub writing : (path bytes : String) → IsQuiet v (h.write_file path bytes)
  pub making_dir : (path : String) → IsQuiet v (h.mkdir_all path)
  pub removing : (path : String) → IsQuiet v (h.remove path)
  pub starting : (args : List String) → IsQuiet v (h.start_command args)

module _ {W : Type 0} (v : View W) where
  pub Same-trans : {a b c : W} → Same v a b → Same v b c → Same v a c
  Same-trans (d, k) (e, l) = (e ∙ d, l ∙ k)

  -- A device that was put stays put over calls that change nothing, before and after.
  pub Same-Puts :
      {id ns : ℕ} {name : String} {w w' u : W}
      → Same v w w'
      → Puts v id ns name w' u
      → Puts v id ns name w u
  Same-Puts {id} s p = record {
    placed = p.placed;
    others = Only-trans (Only-refl {id = id} s.0) p.others;
    stays = p.stays ∙ s.1;
  }

  pub Puts-Same :
      {id ns : ℕ} {name : String} {w u u' : W}
      → Puts v id ns name w u
      → Same v u u'
      → Puts v id ns name w u'
  Puts-Same {id} p s = record {
    placed = (ap (λ d. d.ns_of id) s.0 ∙ p.placed.0, ap (λ d. d.name_of id) s.0 ∙ p.placed.1);
    others = Only-trans p.others (Only-refl s.0);
    stays = s.1 ∙ p.stays;
  }

  pub Puts-trans :
      {id : ℕ} {ns ns' : ℕ} {name name' : String} {a b c : W}
      → Puts v id ns name a b
      → Puts v id ns' name' b c
      → Puts v id ns' name' a c
  Puts-trans p q = record {
    placed = q.placed;
    others = Only-trans p.others q.others;
    stays = q.stays ∙ p.stays;
  }

  -- What a quiet call leaves, by the call's result
  pub quiet_at :
      {E A : Type 0} {m : Run W E A} {w u : W} {r : Outcome E A}
      → IsQuiet v m
      → m w ≡ (r, u)
      → Same v w u
  quiet_at {w = w} q e = subst (λ p. Same v w p.1) e (q.same w)

  -- A function that ran in another namespace, from `a` to `b`, seen from where the thread came back
  pub Puts-inside :
      {id ns : ℕ} {name : String} {w a b u : W}
      → v.devices a ≡ v.devices w
      → v.devices u ≡ v.devices b
      → v.current u ≡ v.current w
      → Puts v id ns name a b
      → Puts v id ns name w u
  Puts-inside {id} da du cu p = record {
    placed = (ap (λ d. d.ns_of id) du ∙ p.placed.0, ap (λ d. d.name_of id) du ∙ p.placed.1);
    others = Only-trans (Only-refl {id = id} da) (Only-trans p.others (Only-refl du));
    stays = cu;
  }
