-- ===== src/Mutex/Processes.antt =====
-- Several processes at the mutex: `acquireShmMutex` and `releaseShmMutex`, interleaved call by call.
-- Of the shared memory it is kept whether the file is there.
use rit_k8s_rdma_sriov_cni.Base.{
  ℕ, zero, suc, ◌+◌, ◌≤◌, ◌≡◌, refl, Bool, true, false, List, [], ◌∷◌, ◌++◌, arith,
}
use rit_k8s_rdma_sriov_cni.Mutex.{max_attempts}

-- Where a process is: outside, in the loop with the attempts that are left, with the mutex, ended by
-- `log.Fatal` because the file was gone at the timeout, or ended with the mutex.
pub data Phase : Type 0 where
  outside : Phase
  trying : ℕ → Phase
  holding : Phase
  refused : Phase
  crashed : Phase

-- A move of one process, with the file before and after it, and the takeovers that it counts for
pub data Move : ℕ → Bool → Phase → Bool → Phase → Type 0 where
  -- A command starts.
  calls : {file : Bool} → Move 0 file outside file (trying max_attempts)
  -- `shm.Open` with `O_CREATE|O_EXCL`
  creates : {left : ℕ} → Move 0 false (trying (suc left)) true holding
  fails : {left : ℕ} → Move 0 true (trying (suc left)) true (trying left)
  -- `shm.Open` after the timeout
  takes_over : Move 1 true (trying 0) true holding
  gives_up : Move 0 false (trying 0) false refused
  -- `shm.Unlink`, which fails if the file is gone; the process goes on in both cases.
  releases : {file : Bool} → Move 0 file holding false outside
  -- `log.Fatal`, a panic in another goroutine, or a kill
  crashes : {file : Bool} → Move 0 file holding file crashed

pub record State : Type 0 where
  pub file : Bool
  pub phases : List Phase

-- A run of any of the processes, with the number of takeovers
pub data Runs : ℕ → State → State → Type 0 where
  stays : {s : State} → Runs 0 s s
  moves :
      {t k : ℕ} {s : State} {file file' : Bool} {p p' : Phase} (before after : List Phase)
      → Runs t s (record { file = file; phases = before ++ p ∷ after })
      → Move k file p file' p'
      → Runs (t + k) s (record { file = file'; phases = before ++ p' ∷ after })

abbrev pub idle : ℕ → List Phase
idle zero = []
idle (suc n) = outside ∷ idle n

-- No file, and no process in a command
abbrev pub start : ℕ → State
start n = record { file = false; phases = idle n }

abbrev pub holds : Phase → ℕ
holds outside = 0
holds (trying left) = 0
holds holding = 1
holds refused = 0
holds crashed = 0

abbrev pub holders : List Phase → ℕ
holders [] = 0
holders (p ∷ ps) = holds p + holders ps

abbrev pub there : Bool → ℕ
there true = 1
there false = 0

holders-append : (ps qs : List Phase) → holders (ps ++ qs) ≡ holders ps + holders qs
holders-append [] qs = omega arith
holders-append (p ∷ ps) qs = omega (arith, holders-append ps qs)

idle-holders : (n : ℕ) → holders (idle n) ≡ 0
idle-holders zero = refl
idle-holders (suc n) = omega (arith, idle-holders n)

-- What a move adds to the holders is paid by the file or by a takeover.
Move-paid :
    {k : ℕ} {file file' : Bool} {p p' : Phase} (t others : ℕ)
    → Move k file p file' p'
    → holds p + others ≤ there file + t
    → holds p' + others ≤ there file' + (t + k)
Move-paid t others calls h = omega arith
Move-paid t others creates h = omega arith
Move-paid t others fails h = omega arith
Move-paid t others takes_over h = omega arith
Move-paid t others gives_up h = omega arith
Move-paid t others (releases {file = true}) h = omega arith
Move-paid t others (releases {file = false}) h = omega arith
Move-paid t others crashes h = omega arith

moved :
    {k : ℕ} {file file' : Bool} {p p' : Phase} (t : ℕ) (before after : List Phase)
    → Move k file p file' p'
    → holders (before ++ p ∷ after) ≤ there file + t
    → holders (before ++ p' ∷ after) ≤ there file' + (t + k)
moved {k} {file} {file'} {p} {p'} t before after m h = omega (
  arith,
  Move-paid t (holders before + holders after) m (omega (arith, holders-append before (p ∷ after))),
  holders-append before (p' ∷ after),
)

Runs-bound :
    {t : ℕ} {s s' : State}
    → Runs t s s'
    → holders s.phases ≤ there s.file
    → holders s'.phases ≤ there s'.file + t
Runs-bound stays h = omega arith
Runs-bound (moves {t = t} before after r m) h = moved t before after m (Runs-bound r h)

-- However the commands of any number of processes are interleaved, and whichever of them crash, the
-- processes with the mutex are at most as many as there were takeovers, and one more if the file is
-- there. So until the first takeover at most one process has the mutex.
pub holders-bound :
    (n t : ℕ) (s : State) → Runs t (start n) s → holders s.phases ≤ (there s.file) + t
holders-bound n t s r = Runs-bound r (omega (arith, idle-holders n))
