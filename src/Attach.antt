-- ===== src/Attach.antt =====
-- src/cgroup_attach.cpp: moving a process to a cgroup.
pub mod Laws
pub mod Kept
pub mod Frame
use cgproxy.Base.{
  ℕ, Bool, true, false, not, ◌&&◌, List, [], ◌∷◌, ◌++◌, Bytes, codes, is_empty, bytes_eq, ◌==◌,
  if◌then◌else◌,
}
use cgproxy.Base.Int.{ℤ, pos, eq_ℤ}
use cgproxy.Base.Decimal.{show_ℤ}
use cgproxy.Constants.{success, error}
use cgproxy.Effect.{M, ◌>>=◌, ret, Outcome, returned}
use cgproxy.System.{Os, Append, not_open, bad, written}
use cgproxy.Valid.{valid_pid, valid_cgroup}
use cgproxy.Proc.{dir_exist, get_cgroup}

-- An `int` where a `bool` is expected.
abbrev int_to_bool : ℤ → Bool
int_to_bool n = not (eq_ℤ n (pos 0))

-- `return_error` in a function of type `bool` returns -1, which is converted.
unfoldable pub validate : Bytes → Bytes → Bool
validate pid cgroup = if valid_pid pid && valid_cgroup cgroup then true else int_to_bool error

-- The stream of `write2procs` after the write and `close`.
abbrev append_status : Append → ℤ
append_status not_open = error
append_status bad = error
append_status written = success

module _ (os : Os) where
  open os use {State}

  -- `procs << pid.c_str() << endl`
  unfoldable pub write2procs : Bytes → Bytes → State → ℤ × State
  write2procs pid procspath s =
      let out = os.append_file procspath (pid ++ b'\n' ∷ []) s in (append_status out.0, out.1)

  -- From the second `getCgroup` on.
  unfoldable pub check_again : Bytes → Bytes → Bytes → M State ℤ
  check_again pid cgroup_target procs = do
    cg ← (λ s. (get_cgroup os pid s, s))
    if is_empty cg then ret success else if bytes_eq cg cgroup_target then ret success else (λ s.
        let out = write2procs pid procs s in
        (returned (if eq_ℤ out.0 (pos 0) then success else error), out.1))

  -- From the first `write2procs` on.
  unfoldable pub move : Bytes → Bytes → Bytes → M State ℤ
  unfolding check_again
  move pid cgroup_target procs s =
      let out = write2procs pid procs s in
      if eq_ℤ out.0 (pos 0)
      then check_again pid cgroup_target procs (os.sleep_ms 100 out.1)
      else (returned error, out.1)

  -- From the first `getCgroup` on.
  unfoldable pub move_if_needed : Bytes → Bytes → Bytes → M State ℤ
  unfolding move
  move_if_needed pid cgroup_target procs = do
    cg ← (λ s. (get_cgroup os pid s, s))
    if is_empty cg
        then ret success
        else if bytes_eq cg cgroup_target
        then ret success
        else move pid cgroup_target procs

  -- The directory of the cgroup is there afterwards, or the answer is `false`.
  unfoldable pub ensure_dir : Bytes → State → Bool × State
  ensure_dir path s = if dir_exist os path s then (true, s) else os.mkdir path s

  -- `cgroup2_mount_point` is a variable of the program, and the first argument here.
  unfoldable pub attach : Bytes → Bytes → Bytes → M State ℤ
  unfolding ensure_dir move_if_needed
  attach mount pid cgroup_target s =
      if not (os.getuid s == 0)
      then (returned error, s)
      else if not (validate pid cgroup_target)
      then (returned error, s)
      else if is_empty mount
      then (returned error, s)
      else (let path = mount ++ cgroup_target in
          let dir = ensure_dir path s in
          if dir.0
          then move_if_needed pid cgroup_target (path ++ codes "/cgroup.procs") dir.1
          else (returned error, dir.1))

  -- The overload for an `int`.
  unfoldable pub attach_int : Bytes → ℤ → Bytes → M State ℤ
  attach_int mount pid cgroup_target = attach mount (show_ℤ pid) cgroup_target
