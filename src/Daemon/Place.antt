-- ===== src/Daemon/Place.antt =====
-- `handle_pid` and `processRunningProgram`: which process is moved to which cgroup.
pub mod Laws
pub mod Scan
use cgproxy.Base.{
  ℕ, Bool, true, false, not, ◌&&◌, ◌||◌, Option, none, some, List, [], ◌∷◌, ◌++◌, Bytes, codes,
  is_empty, contains, if◌then◌else◌,
}
use cgproxy.Base.Int.{ℤ, pos}
use cgproxy.Base.Decimal.{show_ℤ}
use cgproxy.Constants.{cgroup2_mount_point, cgroup_proxy_preserved, cgroup_noproxy_preserved, error}
use cgproxy.Effect.{M, ◌>>=◌, ◌>>◌, ret, Outcome, returned}
use cgproxy.System.{Os}
use cgproxy.Text.{belong_to_cgroup, belong_to_any}
use cgproxy.Proc.{get_cgroup}
use cgproxy.Pidof.{bash_pidof}
use cgproxy.Attach.{attach_int}
use cgproxy.Config.{Config}

-- One of the two program lists with its cgroups and the preserved cgroup of its processes.
pub record Target : Type 0 where
  pub programs : List Bytes
  pub cgroups : List Bytes
  pub preserved : Bytes

abbrev pub noproxy : Config → Target
noproxy c = record {
  programs = c.program_noproxy;
  cgroups = c.cgroup_noproxy;
  preserved = cgroup_noproxy_preserved;
}

abbrev pub proxy : Config → Target
proxy c = record {
  programs = c.program_proxy;
  cgroups = c.cgroup_proxy;
  preserved = cgroup_proxy_preserved;
}

-- In one of the two preserved cgroups.
unfoldable pub is_preserved : Bytes → Bool
is_preserved cg =
    belong_to_cgroup cg cgroup_proxy_preserved || belong_to_cgroup cg cgroup_noproxy_preserved

module _ (os : Os) where
  open os use {State}

  abbrev pub exe_link : ℤ → Bytes
  exe_link pid = codes "/proc/" ++ (show_ℤ pid ++ codes "/exe")

  -- What both functions do for a process of a listed program, from its cgroup on. `none` is a case in
  -- which the code goes on behind the block.
  unfoldable pub settle : Target → ℤ → Bytes → M State (Option ℤ)
  settle t pid cg s =
      if is_empty cg
      then (returned (some (pos 0)), s)
      else if is_preserved cg
      then (returned (some (pos 0)), s)
      else if not (belong_to_any cg t.cgroups)
      then (do res ← attach_int os cgroup2_mount_point pid t.preserved; ret (some res)) s
      else (returned none, s)

  unfoldable pub place : Target → ℤ → M State (Option ℤ)
  place t pid = do cg ← (λ s. (get_cgroup os (show_ℤ pid) s, s)); settle t pid cg

  -- One `if (find(…))` block of `handle_pid`.
  unfoldable pub place_listed : Target → ℤ → Bytes → M State (Option ℤ)
  place_listed t pid path = if contains path t.programs then place t pid else ret none

  -- The second block and the `return 0` behind it.
  unfoldable pub place_last : Config → ℤ → Bytes → M State ℤ
  place_last c pid path = do
    second ← place_listed (proxy c) pid path
    ret (elim second [ some res ↦ res | none ↦ pos 0 ])

  unfoldable pub place_by_path : Config → ℤ → Bytes → M State ℤ
  place_by_path c pid path = do
    first ← place_listed (noproxy c) pid path
    elim first [ some res ↦ ret res | none ↦ place_last c pid path ]

  unfoldable pub handle_pid : Config → ℤ → M State ℤ
  handle_pid c pid s = elim (os.realpath (exe_link pid) s) [
    | none ↦ (returned (pos 0), s)
    | some path ↦ place_by_path c pid path s
  ]

  -- The inner loop of `processRunningProgram`; what `attach` answers only goes to the log.
  pub place_pids : Target → List ℤ → M State (Unit {0})
  place_pids t [] = ret tt
  place_pids t (pid ∷ pids) = do _ ← place t pid; place_pids t pids

  unfoldable pub place_running : Target → List Bytes → M State (Unit {0})
  place_running t [] = ret tt
  place_running t (path ∷ paths) = do
    pids ← bash_pidof os path
    place_pids t pids
    place_running t paths

  unfoldable pub process_running_program : Config → M State (Unit {0})
  process_running_program c = do
    place_running (noproxy c) c.program_noproxy
    place_running (proxy c) c.program_proxy

  -- The callback that the execsnoop thread is given: -1 while there is no instance.
  unfoldable pub handle_pid_static : Option Config → ℤ → M State ℤ
  handle_pid_static none pid = ret error
  handle_pid_static (some c) pid = handle_pid c pid
