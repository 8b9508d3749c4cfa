-- ===== src/Attach/Laws.antt =====
-- What an `attach` that succeeds has done, and which calls change nothing.
use cgproxy.Base.{true, [], ◌∷◌, ◌++◌, Bytes, codes, bytes_eq_iff, ◌≡◌, ◌≢◌, ◌⊎◌, refl, arith}
use cgproxy.Base.Int.{ℤ}
use cgproxy.Constants.{success, error}
use cgproxy.Effect.{Outcome, returned, raised, std_out_of_range}
use cgproxy.System.{Os, written}
use cgproxy.Proc.{dir_exist, get_cgroup}
use cgproxy.Proc.Cgroups.{get_cgroup-cases}
use cgproxy.Attach.{validate, write2procs, check_again, move, move_if_needed, ensure_dir, attach}

-- validate answers true for every pid and cgroup, valid or not: -1 converts to true.
validate_always : (pid cg : Bytes) → validate pid cg ≡ true
unfolding validate
validate_always pid cg = ground arith

module _ (os : Os) where
  open os use {State}

  abbrev pub procs_file : Bytes → Bytes → Bytes
  procs_file mount cg = (mount ++ cg) ++ codes "/cgroup.procs"

  -- The process is in the cgroup, or is gone.
  abbrev pub IsSettled : Bytes → Bytes → State → Type 0
  IsSettled pid cg s = (get_cgroup os pid s ≡ returned cg) ⊎ (get_cgroup os pid s ≡ returned [])

  -- The file cgroup.procs of cgroup v2: a pid that is written there is moved.
  abbrev pub MovesWritten : Bytes → Type 0
  MovesWritten mount =
      (pid cg : Bytes) (s t : State)
      → os.append_file (procs_file mount cg) (pid ++ b'\n' ∷ []) s ≡ (written, t)
      → IsSettled pid cg t

  module _ (mount pid cg : Bytes) (moves : MovesWritten mount) where
    write2procs-IsSettled :
        (s : State)
        → (write2procs os pid (procs_file mount cg) s).0 ≡ success
        → IsSettled pid cg (write2procs os pid (procs_file mount cg) s).1
    unfolding write2procs
    write2procs-IsSettled s h =
        ground
          (arith, moves pid cg s (os.append_file (procs_file mount cg) (pid ++ b'\n' ∷ []) s).1)

    check_again-IsSettled :
        (s : State) (o : Outcome Bytes)
        → get_cgroup os pid s ≡ o
        → (check_again os pid cg (procs_file mount cg) s).0 ≡ returned success
        → IsSettled pid cg (check_again os pid cg (procs_file mount cg) s).1
    unfolding check_again
    check_again-IsSettled s (returned c) e h =
        ground (arith, bytes_eq_iff c cg, write2procs-IsSettled s)
    check_again-IsSettled s _ e h = ground arith

    move-IsSettled :
        (s : State)
        → (move os pid cg (procs_file mount cg) s).0 ≡ returned success
        → IsSettled pid cg (move os pid cg (procs_file mount cg) s).1
    unfolding move
    move-IsSettled s h = ground (
      arith,
      check_again-IsSettled (os.sleep_ms 100 (write2procs os pid (procs_file mount cg) s).1) _ refl,
    )

    move_if_needed-IsSettled :
        (s : State) (o : Outcome Bytes)
        → get_cgroup os pid s ≡ o
        → (move_if_needed os pid cg (procs_file mount cg) s).0 ≡ returned success
        → IsSettled pid cg (move_if_needed os pid cg (procs_file mount cg) s).1
    unfolding move_if_needed
    move_if_needed-IsSettled s (returned c) e h =
        ground (arith, bytes_eq_iff c cg, move-IsSettled s)
    move_if_needed-IsSettled s _ e h = ground arith

    -- If a write to cgroup.procs moves the process, an attach that answers 0 leaves the process in
    -- the target cgroup, or the process is gone, also if it was moved away once while attach
    -- waited.
    pub attach-IsSettled :
        (s : State)
        → (attach os mount pid cg s).0 ≡ returned success
        → IsSettled pid cg (attach os mount pid cg s).1
    unfolding attach
    attach-IsSettled s h =
        ground (arith, move_if_needed-IsSettled (ensure_dir os (mount ++ cg) s).1 _ refl)

  -- Without root nothing is touched, and the answer is -1.
  attach-not_root :
      (mount pid cg : Bytes) (s : State)
      → os.getuid s ≢ 0
      → attach os mount pid cg s ≡ (returned error, s)
  unfolding attach
  attach-not_root mount pid cg s h = ground arith

  -- As root, with a mount point and the directory of the target there, a process that is in the
  -- target already, or is gone, is left alone with the answer 0, and so is the file system.
  attach-settled :
      (mount pid cg : Bytes) (s : State)
      → os.getuid s ≡ 0
      → mount ≢ []
      → dir_exist os (mount ++ cg) s ≡ true
      → IsSettled pid cg s
      → attach os mount pid cg s ≡ (returned success, s)
  unfolding attach
  attach-settled mount pid cg s root m d settled =
      ground (arith, validate_always pid cg, bytes_eq_iff cg cg)

  abbrev pub IsStatus : Outcome ℤ → Type 0
  IsStatus r = (r ≡ returned success) ⊎ (r ≡ returned error) ⊎ (r ≡ raised std_out_of_range)

  check_again-IsStatus :
      (pid cg procs : Bytes) (s : State) → IsStatus (check_again os pid cg procs s).0
  unfolding check_again
  check_again-IsStatus pid cg procs s = ground (arith, get_cgroup-cases os pid s)

  move-IsStatus : (pid cg procs : Bytes) (s : State) → IsStatus (move os pid cg procs s).0
  unfolding move
  move-IsStatus pid cg procs s =
      ground
        (arith, check_again-IsStatus pid cg procs (os.sleep_ms 100 (write2procs os pid procs s).1))

  move_if_needed-IsStatus :
      (pid cg procs : Bytes) (s : State) → IsStatus (move_if_needed os pid cg procs s).0
  unfolding move_if_needed
  move_if_needed-IsStatus pid cg procs s =
      ground (arith, get_cgroup-cases os pid s, move-IsStatus pid cg procs s)

  -- attach answers 0 or -1, or lets through the std::out_of_range of a malformed entry in /proc.
  pub attach-IsStatus : (mount pid cg : Bytes) (s : State) → IsStatus (attach os mount pid cg s).0
  unfolding attach
  attach-IsStatus mount pid cg s = ground (
    arith,
    move_if_needed-IsStatus pid cg (procs_file mount cg) (ensure_dir os (mount ++ cg) s).1,
  )
