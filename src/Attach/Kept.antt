-- ===== src/Attach/Kept.antt =====
-- `attach` changes only what `mkdir`, a write of the pid, and waiting change.
use cgproxy.Base.{◌∷◌, ◌++◌, [], Bytes, ◌≡◌, arith}
use cgproxy.System.{Os}
use cgproxy.Proc.Cgroups.{get_cgroup-cases}
use cgproxy.Attach.{write2procs, check_again, move, move_if_needed, ensure_dir, attach}
use cgproxy.Attach.Laws.{procs_file}

-- What is observed of the system is the same behind the three calls.
pub record IsKept (os : Os) (q : Bytes) {A : Type 0} (obs : os.State → A) : Type 0 where
  pub mkdir : (path : Bytes) (s : os.State) → obs (os.mkdir path s).1 ≡ obs s
  pub append :
      (procs : Bytes) (s : os.State) → obs (os.append_file procs (q ++ b'\n' ∷ []) s).1 ≡ obs s
  pub sleep : (s : os.State) → obs (os.sleep_ms 100 s) ≡ obs s

module _ (os : Os) (q : Bytes) {A : Type 0} (obs : os.State → A) (kept : IsKept os q obs) where
  open os use {State}

  write2procs-kept : (procs : Bytes) (s : State) → obs (write2procs os q procs s).1 ≡ obs s
  unfolding write2procs
  write2procs-kept procs s = kept.append procs s

  check_again-kept : (cg procs : Bytes) (s : State) → obs (check_again os q cg procs s).1 ≡ obs s
  unfolding check_again
  check_again-kept cg procs s = ground (arith, get_cgroup-cases os q s, write2procs-kept procs s)

  move-kept : (cg procs : Bytes) (s : State) → obs (move os q cg procs s).1 ≡ obs s
  unfolding move
  move-kept cg procs s = ground (
    arith,
    write2procs-kept procs s,
    kept.sleep (write2procs os q procs s).1,
    check_again-kept cg procs (os.sleep_ms 100 (write2procs os q procs s).1),
  )

  move_if_needed-kept :
      (cg procs : Bytes) (s : State) → obs (move_if_needed os q cg procs s).1 ≡ obs s
  unfolding move_if_needed
  move_if_needed-kept cg procs s = ground (arith, get_cgroup-cases os q s, move-kept cg procs s)

  ensure_dir-kept : (path : Bytes) (s : State) → obs (ensure_dir os path s).1 ≡ obs s
  unfolding ensure_dir
  ensure_dir-kept path s = ground (arith, kept.mkdir path s)

  pub attach-kept : (mount cg : Bytes) (s : State) → obs (attach os mount q cg s).1 ≡ obs s
  unfolding attach
  attach-kept mount cg s = ground (
    arith,
    ensure_dir-kept (mount ++ cg) s,
    move_if_needed-kept cg (procs_file os mount cg) (ensure_dir os (mount ++ cg) s).1,
  )
