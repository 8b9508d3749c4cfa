-- ===== src/Attach/Frame.antt =====
-- What `attach` leaves alone: the cgroups of other processes.
use cgproxy.Base.{◌∷◌, ◌++◌, Bytes, codes, [], ◌≡◌, ◌≢◌, ◌⊎◌, inl, inr, arith}
use cgproxy.Constants.{success, error}
use cgproxy.Attach.Laws.{procs_file}
use cgproxy.Attach.Kept.{attach-kept}
use cgproxy.Base.Int.{ℤ}
use cgproxy.Effect.{Returns, Outcome, returned}
use cgproxy.System.{Os}
use cgproxy.Proc.{get_cgroup}
use cgproxy.Attach.{write2procs, check_again, move, move_if_needed, ensure_dir, attach}

-- Every entry in /proc can be read, and nobody moves a process but a write of its pid.
pub record IsQuiet (os : Os) : Type 0 where
  pub readable : (pid : Bytes) (s : os.State) → (cg : Bytes) × (get_cgroup os pid s ≡ returned cg)
  pub mkdir_keeps :
      (pid path : Bytes) (s : os.State)
      → get_cgroup os pid (os.mkdir path s).1 ≡ get_cgroup os pid s
  pub sleep_keeps :
      (pid : Bytes) (s : os.State) → get_cgroup os pid (os.sleep_ms 100 s) ≡ get_cgroup os pid s
  pub others_keep :
      (pid q procs : Bytes) (s : os.State)
      → q ≢ pid
      → get_cgroup os pid (os.append_file procs (q ++ b'\n' ∷ []) s).1 ≡ get_cgroup os pid s
  pub pidof_keeps :
      (pid path : Bytes) (s : os.State)
      → get_cgroup os pid (os.popen (codes "pidof " ++ path) s).1 ≡ get_cgroup os pid s

module _ (os : Os) (quiet : IsQuiet os) (q : Bytes) where
  open os use {State}

  abbrev IsAnswer : Outcome ℤ → Type 0
  IsAnswer r = (r ≡ returned success) ⊎ (r ≡ returned error)

  check_again-IsAnswer : (cg procs : Bytes) (s : State) → IsAnswer (check_again os q cg procs s).0
  unfolding check_again
  check_again-IsAnswer cg procs s = ground (arith, quiet.readable q s)

  move-IsAnswer : (cg procs : Bytes) (s : State) → IsAnswer (move os q cg procs s).0
  unfolding move
  move-IsAnswer cg procs s =
      ground (arith, check_again-IsAnswer cg procs (os.sleep_ms 100 (write2procs os q procs s).1))

  move_if_needed-IsAnswer :
      (cg procs : Bytes) (s : State) → IsAnswer (move_if_needed os q cg procs s).0
  unfolding move_if_needed
  move_if_needed-IsAnswer cg procs s = ground (arith, quiet.readable q s, move-IsAnswer cg procs s)

  pub attach-IsAnswer : (mount cg : Bytes) (s : State) → IsAnswer (attach os mount q cg s).0
  unfolding attach
  attach-IsAnswer mount cg s =
      ground (
        arith,
        move_if_needed-IsAnswer cg (procs_file os mount cg) (ensure_dir os (mount ++ cg) s).1,
      )

  pub attach-Returns : (mount cg : Bytes) (s : State) → Returns (attach os mount q cg s)
  attach-Returns mount cg s = elim (attach-IsAnswer mount cg s) [
    | inl done ↦ (success, done)
    | inr failed ↦ (error, failed)
  ]

  -- An attach of a process leaves every other one where it is.
  pub attach-keeps :
      (pid : Bytes)
      → q ≢ pid
      → (mount cg : Bytes) (s : State)
      → get_cgroup os pid (attach os mount q cg s).1 ≡ get_cgroup os pid s
  attach-keeps pid other mount cg s =
      attach-kept os q (get_cgroup os pid)
        (record {
          mkdir = quiet.mkdir_keeps pid;
          append = λ procs t. quiet.others_keep pid q procs t other;
          sleep = quiet.sleep_keeps pid;
        })
        mount cg s
