-- ===== src/Daemon/Exclusion.antt =====
-- Several daemons on one lock file: `lock` and `unlock` of src/cgproxyd.hpp, call by call. The file
-- system is not part of the program; PID_LOCK_FILE is the one path.
pub mod Safety
pub mod Race
use cgproxy.Base.{ℕ, Bool, true, false, Option, none, some, List, [], ◌∷◌, ◌==◌, if◌then◌else◌, ◌≡◌}

-- The calls on an unknown state. `named` is the file that the path names, and `holder` the process
-- that has the lock on a file; `open` is that with O_CREAT, and `flock` that with LOCK_EX | LOCK_NB.
pub record Files : Type 1 where
  pub State : Type 0
  pub named : State → Option ℕ
  pub holder : ℕ → State → Option ℕ
  pub open_file : State → ℕ × State
  pub flock : ℕ → ℕ → State → Bool × State
  pub close : ℕ → ℕ → State → State
  pub unlink : State → State

-- What the manual pages say of these calls.
pub record IsFileSystem (files : Files) : Type 0 where
  -- `open` delivers the file that the path names, and a new one, on which there is no lock, where it
  -- names none.
  pub open_names :
      (s : files.State) → files.named (files.open_file s).1 ≡ some (files.open_file s).0
  pub open_there : (i : ℕ) (s : files.State) → files.named s ≡ some i → (files.open_file s).0 ≡ i
  pub open_new :
      (s : files.State) → files.named s ≡ none → files.holder (files.open_file s).0 s ≡ none
  pub open_holder :
      (i : ℕ) (s : files.State) → files.holder i (files.open_file s).1 ≡ files.holder i s
  -- `flock` succeeds exactly on a file that nobody else has locked, and then the process has the lock.
  pub flock_free :
      (p i : ℕ) (s : files.State) → files.holder i s ≡ none → (files.flock p i s).0 ≡ true
  pub flock_held :
      (p q i : ℕ) (s : files.State)
      → files.holder i s ≡ some q
      → (files.flock p i s).0 ≡ true
      → q ≡ p
  pub flock_holder :
      (p i j : ℕ) (s : files.State)
      → files.holder j (files.flock p i s).1 ≡ (
          if (files.flock p i s).0
          then (if j == i then some p else files.holder j s)
          else files.holder j s)
  pub flock_named : (p i : ℕ) (s : files.State) → files.named (files.flock p i s).1 ≡ files.named s
  -- `close` gives the lock of the process back.
  pub close_holder :
      (p i j : ℕ) (s : files.State)
      → files.holder i s ≡ some p
      → files.holder j (files.close p i s) ≡ (if j == i then none else files.holder j s)
  pub close_named : (p i : ℕ) (s : files.State) → files.named (files.close p i s) ≡ files.named s
  pub unlink_named : (s : files.State) → files.named (files.unlink s) ≡ none
  pub unlink_holder : (i : ℕ) (s : files.State) → files.holder i (files.unlink s) ≡ files.holder i s

-- Where a daemon stands: before `lock`, between `open` and `flock`, with the lock until `stop`,
-- between `close` and `unlink` of `unlock`, behind it, and behind the exit of a `lock` that failed.
pub data Pc : Type 0 where
  outside : Pc
  opened running unlocking : ℕ → Pc
  stopped failed : Pc

module _ (files : Files) where
  open files use {State}

  -- The next call of a daemon.
  unfoldable pub daemon_step : ℕ → Pc → State → Pc × State
  daemon_step p outside s = (opened (files.open_file s).0, (files.open_file s).1)
  daemon_step p (opened i) s =
      (if (files.flock p i s).0 then running i else failed, (files.flock p i s).1)
  daemon_step p (running i) s = (unlocking i, files.close p i s)
  daemon_step p (unlocking i) s = (stopped, files.unlink s)
  daemon_step p stopped s = (stopped, s)
  daemon_step p failed s = (failed, s)

  pub record World : Type 0 where
    pub pc : ℕ → Pc
    pub fs : State

  abbrev pub set_pc : ℕ → Pc → (ℕ → Pc) → ℕ → Pc
  set_pc p v pc q = if q == p then v else pc q

  unfoldable pub advance : ℕ → World → World
  advance p x =
      let out = daemon_step p (x.pc p) x.fs in record { pc = set_pc p out.0 x.pc; fs = out.1 }

  -- The daemons in any order.
  pub data Reach (x : World) : World → Type 0 where
    here : Reach x x
    after : {y : World} → Reach x y → (p : ℕ) → Reach x (advance p y)

  -- No daemon has begun, and there is no lock.
  abbrev pub IsInitial : World → Type 0
  IsInitial x = ((p : ℕ) → x.pc p ≡ outside) × ((i : ℕ) → files.holder i x.fs ≡ none)

  unfoldable pub run_order : List ℕ → World → World
  unfolding advance
  run_order [] x = x
  run_order (p ∷ ps) x = run_order ps (advance p x)
