-- ===== src/Tests/Interleaving.antt =====
-- The socket thread and the execsnoop thread on the machine.
use cgproxy.Base.{
  Bool, true, false, none, some, List, [], ◌∷◌, ◌++◌, Bytes, codes, bytes_eq, contains, ◌≡◌, refl,
}
use cgproxy.Base.Int.{pos}
use cgproxy.Base.Decimal.{show_ℕ, show_ℤ}
use cgproxy.Constants.{cgroup2_mount_point, cgroup_proxy_preserved, success}
use cgproxy.Effect.{returned}
use cgproxy.Text.{belong_to_cgroup, belong_to_any, start_with}
use cgproxy.Valid.{valid_pid, valid_cgroup}
use cgproxy.Proc.{get_cgroup, file_exist, dir_exist, lines, lines_onto, find_cgroup}
use cgproxy.Proc.Cgroups.{unlines, unified}
use cgproxy.Attach.{
  validate, write2procs, check_again, move, move_if_needed, ensure_dir, attach, attach_int,
}
use cgproxy.Config.{Config, default_config}
use cgproxy.Config.Load.{assign_all}
use cgproxy.Config.Load.Lookup.{IsKept}
use cgproxy.Daemon.Place.{is_preserved}
use cgproxy.Daemon.Interleave.{second, done, handler_step, writes, finishing}
use cgproxy.Daemon.Interleave.Mixed.{Reach, Shared, loader_step, handled, begin, run_schedule}
use cgproxy.Daemon.Interleave.Safety.{Wanted, Reach-Wanted}
use cgproxy.Daemon.Interleave.Preserved.{Calm, Stays, Reach-Calm}
use cgproxy.Daemon.Interleave.Window.{between, run_schedule-Reach, run_schedule_misses}
use cgproxy.Tests.Codec.{Value, codec, texts, field, end}
use cgproxy.Tests.Machine.{Machine, machine}

abbrev firefox : Bytes
firefox = codes "/usr/bin/firefox"

-- firefox is proxied by its path, and by its name in the configuration that is loaded.
abbrev browsing : Config
browsing = record default_config { program_proxy = firefox ∷ []; program_noproxy = [] }

abbrev reloaded : Value
reloaded =
    field (codes "program_proxy") (texts (codes "firefox" ∷ []))
      (field (codes "program_noproxy") (texts []) end)

-- Process 42 runs firefox in this cgroup.
abbrev running_in : Bytes → Machine
running_in cg = record {
  uid = 0;
  pid = pos 7;
  files = (codes "/proc/42/cgroup", unlines (unified cg ∷ [])) ∷ [];
  dirs = (cgroup2_mount_point ++ cgroup_proxy_preserved) ∷ [];
  links = (codes "/proc/42/exe", firefox) ∷ [];
  ran = [];
}

abbrev in_user : Machine
in_user = running_in (codes "/user.slice")

abbrev in_proxy : Machine
in_proxy = running_in (codes "/proxy.slice/a")

-- The search in the list, then the assignment of it, then the rest of `handle_pid`.
abbrev mixed : List Bool
mixed = false ∷ false ∷ false ∷ true ∷ false ∷ false ∷ false ∷ []

abbrev started : Shared machine
started = begin machine (writes machine codec reloaded) browsing in_user

abbrev ended : Shared machine
ended = run_schedule machine (pos 42) mixed started

moved : ended.handler ≡ done (some (second, (firefox, codes "/user.slice"))) (returned success)
unfolding run_schedule handled loader_step handler_step writes is_preserved belong_to_cgroup
    belong_to_any start_with contains attach attach_int ensure_dir dir_exist validate valid_pid
    valid_cgroup write2procs move move_if_needed check_again get_cgroup file_exist lines lines_onto
    find_cgroup show_ℤ show_ℕ bytes_eq
moved = refl

Reach-Wanted_example : Wanted machine (pos 42) second firefox (codes "/user.slice") ended.past
Reach-Wanted_example =
    Reach-Wanted machine (pos 42) (writes machine codec reloaded) browsing in_user
      (run_schedule-Reach machine (pos 42) mixed started) moved

at_proxy : get_cgroup machine (show_ℤ (pos 42)) in_proxy ≡ returned (codes "/proxy.slice/a")
unfolding get_cgroup file_exist lines lines_onto find_cgroup show_ℤ show_ℕ bytes_eq
at_proxy = refl

kept : IsKept machine (Stays machine (pos 42) (codes "/proxy.slice/a"))
kept = record { which = λ name s p. p; readlink = λ path s p. p }

abbrev calm : Shared machine
calm =
    run_schedule machine (pos 42) mixed
      (begin machine (writes machine codec reloaded) browsing in_proxy)

Reach-Calm_example :
    Stays machine (pos 42) (codes "/proxy.slice/a") calm.now.sys × Calm calm.handler
unfolding is_preserved belong_to_cgroup start_with bytes_eq
Reach-Calm_example =
    Reach-Calm machine (pos 42) (codes "/proxy.slice/a") refl kept codec reloaded browsing in_proxy
      at_proxy
      (run_schedule-Reach machine (pos 42) mixed
        (begin machine (writes machine codec reloaded) browsing in_proxy))

run_schedule_misses_example :
    let x = run_schedule machine (pos 42) (between machine (pos 42)) started in
    Reach machine (pos 42) started x
    × (x.handler ≡ done none (returned (pos 0)))
    × (x.now.sys ≡ in_user)
    × (x.pending ≡ finishing machine)
unfolding bytes_eq show_ℤ show_ℕ contains assign_all
run_schedule_misses_example =
    run_schedule_misses machine (pos 42) codec reloaded browsing in_user {path = firefox} refl refl
      refl
